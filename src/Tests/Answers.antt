-- ===== src/Tests/Answers.antt =====
-- An instance of the theorem on the inspector's readout: two destinations, of which one is the
-- product's, and its tunnel.
use a2a_tokenized_provisioni.Base.{
  ◌≡◌, refl, true, List, [], ◌∷◌, ◌==◌, if◌then◌else◌, text_eq, text_beq, map,
}
use a2a_tokenized_provisioni.Base.Decimal.{Text, codes}
use a2a_tokenized_provisioni.Exec.{ok}
use a2a_tokenized_provisioni.Netctl.Gnmi.{client}
use a2a_tokenized_provisioni.Netctl.Gnmi.Json.{
  Json, string, number, array, object, Members, end, member, after_colon, local_name,
}
use a2a_tokenized_provisioni.Netctl.Gnmi.Json.Keys.{last_named}
use a2a_tokenized_provisioni.Netctl.Gnmi.Reads.{Getter}
use a2a_tokenized_provisioni.Netctl.Gnmi.Reads.Shapes.{
  IsNamed, an_item, no_item, Lists, no_value, holding,
}
use a2a_tokenized_provisioni.Netctl.Gnmi.Readout.{telemetry_config}
use a2a_tokenized_provisioni.Netctl.Gnmi.Readout.States.{IsState, reported}
use a2a_tokenized_provisioni.Netctl.Gnmi.Readout.Destinations.{IsExport, an_export}
use a2a_tokenized_provisioni.Netctl.Gnmi.Readout.Exports.{Shown, shown_states, telemetry_config_lem}
use a2a_tokenized_provisioni.Tests.Json.{
  qos, items_of, Each-items_of, tunnel_json, tunnel_json-IsNamed,
}
use a2a_tokenized_provisioni.Tests.Racks.{racks, busy, devices}

-- what the provisioner wrote of a destination, under its name
abbrev members_of : Text → Members
members_of name = member (codes "name") (string name) (
    member (qos (codes "address")) (string (codes "10.0.0.50")) (
      member (codes "port") (number 57000)
        (member (codes "network-instance") (string (codes "mgmt")) end)))

abbrev export_json : Text × Members → Json
export_json (name, members) = object members

abbrev exports : List (Text × Members)
exports =
    (codes "a2a-ent8-a0", members_of (codes "a2a-ent8-a0"))
    ∷ (codes "lab", members_of (codes "lab"))
    ∷ []

abbrev tunnels : List Text
tunnels = codes "a2a-ent8-a0" ∷ []

abbrev config : List Json
config =
    object (
      member (qos (codes "tunnel")) (array (items_of (map tunnel_json tunnels)))
        (member (codes "destination") (array (items_of (map export_json exports))) end))
    ∷ []

abbrev state_json : Text × Json → Json
state_json (name, state) =
    object (member (codes "name") (string name) (member (codes "oper-state") state end))

abbrev states : List (Text × Json)
states = (codes "a2a-ent8-a0", string (codes "up")) ∷ []

abbrev state : List Json
state = object (member (codes "tunnel") (array (items_of (map state_json states))) end) ∷ []

abbrev answers : {R : Type 0} → Getter R
answers device path datatype r =
    if datatype == codes "config" then (ok config, r) else (ok state, r)

config-exports : Lists IsExport (codes "destination") config exports
unfolding last_named local_name after_colon text_beq
config-exports =
    holding _ _ [] exports [] exports refl
      (an_item _ _ _ _ (an_export _ _ refl) (an_item _ _ _ _ (an_export _ _ refl) no_item)) no_value
      refl

config-tunnels : Lists IsNamed (codes "tunnel") config tunnels
unfolding last_named local_name after_colon text_beq
config-tunnels =
    holding _ _ [] tunnels [] tunnels refl
      (Each-items_of IsNamed tunnel_json tunnel_json-IsNamed tunnels) no_value refl

state-states :
    (found : List Json) → ok state ≡ ok found → Lists IsState (codes "tunnel") found states
unfolding last_named local_name after_colon text_beq
state-states found h =
    let same : found ≡ state = cc in
    rw same (
      holding _ _ [] states [] states refl (an_item _ _ _ _ (reported _ _ _ refl refl) no_item)
        no_value refl)

telemetry_config_lem_example :
    (out : List Json) × ((telemetry_config racks devices answers (codes "srl1") true busy).0
      ≡ ok out)
    × Shown tunnels (shown_states true (ok states)) exports out
unfolding client text_beq
telemetry_config_lem_example =
    telemetry_config_lem racks devices answers (codes "srl1") true busy
      (record busy { clients = codes "srl1" ∷ [] }) busy.routers config tunnels exports (ok state)
      states refl refl config-exports config-tunnels refl state-states
