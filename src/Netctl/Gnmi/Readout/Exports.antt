-- ===== src/Netctl/Gnmi/Readout/Exports.antt =====
-- provisioner.py: `telemetry_config`, the readout for the inspector, on what the answers say.
use a2a_tokenized_provisioni.Base.{
  ◌≡◌, refl, ap, ◌∙◌, Bool, true, false, Option, none, some, List, [], ◌∷◌, ◌==◌, if◌then◌else◌,
  text_eq, inl, inr, Bool-cases, elem, starts_with,
}
use a2a_tokenized_provisioni.Base.Decimal.{Text, codes}
use a2a_tokenized_provisioni.Exec.{Result, ok, raised, and_then}
use a2a_tokenized_provisioni.Dict
use a2a_tokenized_provisioni.Dict.{Dict}
use a2a_tokenized_provisioni.Netctl.Gnmi.{Routers, Hands, client}
use a2a_tokenized_provisioni.Netctl.Gnmi.Json.{
  Json, null, truth, string, object, Members, end, put_member, find_member, denamespace,
  denamespace_members,
}
use a2a_tokenized_provisioni.Netctl.Gnmi.Json.Keys.{
  last_named, later_or, plain, get-denamespace, find_member-put_member,
  find_member-denamespace_members,
}
use a2a_tokenized_provisioni.Netctl.Gnmi.Reads.{Getter, telemetry_destinations}
use a2a_tokenized_provisioni.Netctl.Gnmi.Reads.Shapes.{IsNamed, Lists, denamespace-string}
use a2a_tokenized_provisioni.Netctl.Gnmi.Readout.{
  known_state, readout, tunnel_oper_states, telemetry_config,
}
use a2a_tokenized_provisioni.Netctl.Gnmi.Readout.States.{IsState, last_state, states_in-Lists}
use a2a_tokenized_provisioni.Netctl.Gnmi.Readout.Destinations.{
  IsExport, kept, exports_in-Lists, Named, Lists-Named,
}

-- What the inspector is shown of the destinations: those of the product in their order, each with
-- all of its fields under their names without modules, and the fields "tunnel" and "oper_state".
pub data Shown (tunnels : List Text) (states : Text → Json)
    : List (Text × Members) → List Json → Type 0 where
  no_more : Shown tunnels states [] []
  foreign :
      (name : Text) (members : Members) (rest : List (Text × Members)) (out : List Json)
      → starts_with (codes "a2a-") name ≡ false
      → Shown tunnels states rest out
      → Shown tunnels states ((name, members) ∷ rest) out
  ours :
      (name : Text) (members fields : Members) (rest : List (Text × Members)) (out : List Json)
      → starts_with (codes "a2a-") name ≡ true
      → ((key : Text)
          → find_member key fields ≡ (
              if codes "oper_state" == key
              then some (states name)
              else if codes "tunnel" == key
              then some (truth (elem name tunnels))
              else plain (last_named key members)))
      → Shown tunnels states rest out
      → Shown tunnels states ((name, members) ∷ rest) (object fields ∷ out)

-- the states that the readout shows, by what was asked for and how the read ended
abbrev pub shown_states : (with_state : Bool) → Result (List (Text × Json)) → Text → Json
shown_states false outcome name = null
shown_states true (raised x) name = null
shown_states true (ok states) name = known_state (last_state name states)

Shown-ext :
    (tunnels : List Text) (states others : Text → Json) (exports : List (Text × Members))
    (out : List Json)
    → ((name : Text) → states name ≡ others name)
    → Shown tunnels states exports out
    → Shown tunnels others exports out
Shown-ext tunnels states others exports out h no_more = no_more
Shown-ext tunnels states others exports out h (foreign name members rest _ off s) =
    foreign name members rest out off (Shown-ext tunnels states others rest out h s)
Shown-ext tunnels states others exports out h (ours name members fields rest more on f s) =
    ours name members fields rest more on
      (λ key.
        f key
        ∙ ap
            (λ (j : Json).
              if codes "oper_state" == key
              then some j
              else if codes "tunnel" == key
              then some (truth (elem name tunnels))
              else plain (last_named key members))
            (h name))
      (Shown-ext tunnels states others rest more h s)

plain-later : (o : Option Json) → later_or o none ≡ o
plain-later none = refl
plain-later (some j) = refl

-- the fields of a destination and the two that are added
abbrev fields_of : (tunnel : Bool) (state : Json) → Members → Members
fields_of tunnel state members =
    put_member (codes "oper_state") state
      (put_member (codes "tunnel") (truth tunnel) (denamespace_members members end))

find_member-fields_of :
    (tunnel : Bool) (state : Json) (members : Members) (key : Text)
    → find_member key (fields_of tunnel state members) ≡ (
        if codes "oper_state" == key
        then some state
        else if codes "tunnel" == key
        then some (truth tunnel)
        else plain (last_named key members))
find_member-fields_of tunnel state members key =
    let inner = denamespace_members members end in
    let kept_field : find_member key inner ≡ plain (last_named key members) =
      find_member-denamespace_members key members end
      ∙ unfold find_member in plain-later (plain (last_named key members)) in
    find_member-put_member key (codes "oper_state") state
      (put_member (codes "tunnel") (truth tunnel) inner)
    ∙ ap (λ (o : Option Json). if codes "oper_state" == key then some state else o)
        (find_member-put_member key (codes "tunnel") (truth tunnel) inner
          ∙ ap (λ (o : Option Json). if codes "tunnel" == key then some (truth tunnel) else o)
              kept_field)

denamespace-object :
    (members : Members) → denamespace (object members) ≡ object (denamespace_members members end)
unfolding denamespace
denamespace-object members = refl

readout-Shown :
    (tunnels : List Text) (states : Dict Text Json) (exports : List (Text × Members))
    → Named exports
    → (out : List Json) × (readout tunnels states (kept exports) ≡ ok out)
      × Shown tunnels (λ name. known_state (Dict.get states name)) exports out
unfolding readout kept
readout-Shown tunnels states [] h = ([], refl, no_more)
readout-Shown tunnels states ((name, members) ∷ exports) (e, h) =
    let (out, r, shown) = readout-Shown tunnels states exports h in
    elim (Bool-cases (starts_with (codes "a2a-") name)) [
      | inr other ↦ (out, rw other r, foreign name members exports out other shown)
      | inl mine ↦
          let state = known_state (Dict.get states name) in
          (
            object (fields_of (elem name tunnels) state members) ∷ out,
            rw
                (
                  mine,
                  get-denamespace (codes "name") members (some (string name)) e,
                  denamespace-string name,
                  r,
                  denamespace-object members,
                )
                refl,
            ours name members (fields_of (elem name tunnels) state members) exports out mine
                (find_member-fields_of (elem name tunnels) state members) shown,
          )
    ]

module _ {R : Type 0} (routers : Routers R) (targets : List Text) (getter : Getter R)
    (device : Text) where
  -- Where the device is reached, with any modules before the keys of its answers and any other keys
  -- beside them, the readout is the list of the product's destinations in their order. Each keeps
  -- all of its fields under their names without modules, and has two more: whether its tunnel
  -- exists and, when that was asked for and could be read, the tunnel's last state.
  pub telemetry_config_lem :
      (with_state : Bool) (h h' : Hands R) (r : R) (values : List Json) (tunnels : List Text)
      (exports : List (Text × Members)) (outcome : Result (List Json)) (states : List (Text × Json))
      → client routers targets device h ≡ (ok tt, h')
      → getter device telemetry_destinations (codes "config") h'.routers ≡ (ok values, r)
      → Lists IsExport (codes "destination") values exports
      → Lists IsNamed (codes "tunnel") values tunnels
      → (getter device telemetry_destinations (codes "state") r).0 ≡ outcome
      → ((found : List Json) → outcome ≡ ok found → Lists IsState (codes "tunnel") found states)
      → (out : List Json) × ((telemetry_config routers targets getter device with_state h).0
          ≡ ok out)
        × Shown tunnels
            (shown_states with_state (and_then outcome (λ found. ok states)))
            exports
            out
  unfolding telemetry_config tunnel_oper_states
  telemetry_config_lem false h h' r values tunnels exports outcome states reached answered lists
        there stated says =
      let (out, e, shown) = readout-Shown tunnels [] exports (Lists-Named values exports lists) in
      (
        out,
        rw (reached, answered, exports_in-Lists values exports tunnels lists there) e,
        unfold Dict.get in shown,
      )
  telemetry_config_lem true h h' r values tunnels exports (raised x) states reached answered lists
        there stated says =
      let (out, e, shown) = readout-Shown tunnels [] exports (Lists-Named values exports lists) in
      (
        out,
        rw (reached, answered, exports_in-Lists values exports tunnels lists there, stated) e,
        unfold Dict.get in shown,
      )
  telemetry_config_lem true h h' r values tunnels exports (ok found) states reached answered lists
        there stated says =
      let (noted, f, last) = states_in-Lists found states (says found refl) in
      let (out, e, shown) =
        readout-Shown tunnels noted exports (Lists-Named values exports lists) in
      (
        out,
        rw (reached, answered, exports_in-Lists values exports tunnels lists there, stated, f) e,
        Shown-ext tunnels (λ name. known_state (Dict.get noted name))
            (λ name. known_state (last_state name states)) exports out last shown,
      )
