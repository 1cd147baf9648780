-- ===== src/Netctl/Gnmi/Readout.antt =====
-- provisioner.py: `telemetry_config`, the readout for the inspector, over the JSON of the answers. A
-- value that cannot stand in a set is not refused.
pub mod States
pub mod Destinations
pub mod Exports
use a2a_tokenized_provisioni.Base.{
  ℕ, Bool, true, false, Option, none, some, List, [], ◌∷◌, ◌++◌, ◌==◌, ◌&&◌, elem, if◌then◌else◌,
  text_eq, nat_eq, starts_with,
}
use a2a_tokenized_provisioni.Base.Decimal.{Text, codes}
use a2a_tokenized_provisioni.Exec.{
  Exec, Result, ok, raised, attribute_error, and_then, pure, lift, ◌>>=◌, ◌>>◌,
}
use a2a_tokenized_provisioni.Dict
use a2a_tokenized_provisioni.Dict.{Dict}
use a2a_tokenized_provisioni.Netctl.Gnmi.{
  Hands, Routers, path_text, policer_template, qos_interface, telemetry_destination,
  telemetry_tunnel, on_routers, client,
}
use a2a_tokenized_provisioni.Netctl.Gnmi.Json
use a2a_tokenized_provisioni.Netctl.Gnmi.Json.{
  Json, null, truth, number, string, array, object, Items, nil, Members, end, put_member,
  denamespace, or_empty, or_else, required, iterate,
}
use a2a_tokenized_provisioni.Netctl.Gnmi.Reads.{
  Getter, telemetry_destinations, entries, node_of, gather,
}

-- `d.get("name", "").startswith("a2a-")`, of which a value that is no text has none
abbrev pub is_ours : Option Json → Result Bool
is_ours none = ok false
is_ours (some (string s)) = ok (starts_with (codes "a2a-") s)
is_ours (some null) = raised attribute_error
is_ours (some (truth b)) = raised attribute_error
is_ours (some (number n)) = raised attribute_error
is_ours (some (array items)) = raised attribute_error
is_ours (some (object members)) = raised attribute_error

unfoldable pub our_destinations : Json → Result (List Json)
unfolding gather entries starts_with
our_destinations node = and_then (entries (codes "destination") node) λ found.
    gather
      (λ d.
        and_then (Json.get (codes "name") d)
          λ n. and_then (is_ours n) λ ours. ok (if ours then d ∷ [] else []))
      found

-- the names that are texts; no other is looked for
abbrev pub text_of : Option Json → List Text
text_of (some (string s)) = s ∷ []
text_of (some null) = []
text_of (some (truth b)) = []
text_of (some (number n)) = []
text_of (some (array items)) = []
text_of (some (object members)) = []
text_of none = []

unfoldable pub tunnel_names : Json → Result (List Text)
unfolding gather entries
tunnel_names node =
    and_then (entries (codes "tunnel") node)
      λ found. gather (λ t. and_then (Json.get (codes "name") t) λ n. ok (text_of n)) found

-- the two reads of the loop, destinations and tunnels
unfoldable pub exports_in : List Json → Result (List Json × List Text)
unfolding our_destinations tunnel_names node_of
exports_in [] = ok ([], [])
exports_in (value ∷ values) =
    let rest = exports_in values in
    let node = node_of value in
    and_then (our_destinations node) λ destinations.
      and_then (tunnel_names node)
        λ tunnels. and_then rest λ more. ok (destinations ++ more.0, tunnels ++ more.1)

-- `out[name] = oper_state`, the later write winning
abbrev pub noted_state : List Text → Json → Dict Text Json → Dict Text Json
noted_state [] state out = out
noted_state (name ∷ names) state out = Dict.put out name state

unfoldable pub note_states : List Json → Dict Text Json → Result (Dict Text Json)
note_states [] out = ok out
note_states (t ∷ tunnels) out = and_then (Json.get (codes "name") t) λ n.
    and_then (Json.get (codes "oper-state") t)
      λ state. note_states tunnels (noted_state (text_of n) (or_else state null) out)

unfoldable pub states_in : List Json → Dict Text Json → Result (Dict Text Json)
unfolding note_states entries node_of
states_in [] out = ok out
states_in (value ∷ values) out =
    and_then (entries (codes "tunnel") (node_of value))
      λ tunnels. and_then (note_states tunnels out) λ out'. states_in values out'

-- a state that was read, or `None`
abbrev pub known_state : Option Json → Json
known_state none = null
known_state (some state) = state

-- `{**dest, "tunnel": dest["name"] in tunnels, "oper_state": oper.get(dest["name"])}`
abbrev pub with_fields : (tunnel : Bool) (state : Json) → Json → Json
with_fields tunnel state (object members) =
    object
      (put_member (codes "oper_state") state (put_member (codes "tunnel") (truth tunnel) members))
with_fields tunnel state null = null
with_fields tunnel state (truth b) = truth b
with_fields tunnel state (number n) = number n
with_fields tunnel state (string s) = string s
with_fields tunnel state (array items) = array items

unfoldable pub readout : List Text → Dict Text Json → List Json → Result (List Json)
readout tunnels states [] = ok []
readout tunnels states (d ∷ destinations) =
    let rest = readout tunnels states destinations in
    and_then (Json.get (codes "name") d)
      λ n. and_then (required n) λ j. and_then rest λ more. ok (entry (text_of (some j)) ∷ more)
  where
    entry : List Text → Json
    entry [] = with_fields false null d
    entry (name ∷ names) = with_fields (elem name tunnels) (known_state (Dict.get states name)) d

module _ {R : Type 0} (routers : Routers R) (targets : List Text) (getter : Getter R) where
  -- `_tunnel_oper_states`, by how its read ended
  abbrev pub states_of : Result (List Json) → Result (Dict Text Json)
  states_of (raised x) = ok []
  states_of (ok values) = states_in values []

  unfoldable pub tunnel_oper_states : (device : Text) → Exec (Hands R) (Dict Text Json)
  unfolding states_in
  tunnel_oper_states device h =
      let (r, h') = on_routers (getter device telemetry_destinations (codes "state")) h in
      (states_of r, h')

  unfoldable pub telemetry_config : (device : Text) (with_state : Bool) → Exec (Hands R) (List Json)
  unfolding client exports_in tunnel_oper_states readout
  telemetry_config device with_state = do
    client routers targets device
    values ← on_routers (getter device telemetry_destinations (codes "config"))
    found ← lift (exports_in values)
    states ← (if with_state then tunnel_oper_states device else pure [])
    lift (readout found.1 states found.0)
