-- ===== src/Netctl/Gnmi/Readout/States.antt =====
-- provisioner.py: `_tunnel_oper_states` on what an answer says.
use a2a_tokenized_provisioni.Base.{
  ◌≡◌, refl, sym, ◌∙◌, ap, Bool, true, false, Option, none, some, List, [], ◌∷◌, ◌++◌, ◌==◌,
  if◌then◌else◌, text_eq,
}
use a2a_tokenized_provisioni.Base.Decimal.{Text, codes}
use a2a_tokenized_provisioni.Exec.{ok}
use a2a_tokenized_provisioni.Dict
use a2a_tokenized_provisioni.Dict.{Dict, get-put}
use a2a_tokenized_provisioni.Netctl.Gnmi.Json.{
  Json, null, string, object, Items, Members, denamespace, denamespace_items, list_of,
}
use a2a_tokenized_provisioni.Netctl.Gnmi.Json.Keys.{last_named, get-denamespace}
use a2a_tokenized_provisioni.Netctl.Gnmi.Readout.{note_states, states_in, known_state}
use a2a_tokenized_provisioni.Netctl.Gnmi.Reads.Shapes.{
  Each, no_item, an_item, Lists, no_value, lacking, holding, entries-holding, entries-lacking,
  denamespace-string,
}

-- A tunnel with its name and its state, which may be missing.
pub data IsState : Json → Text × Json → Type 0 where
  reported :
      (members : Members) (name state : Text)
      → last_named (codes "name") members ≡ some (string name)
      → last_named (codes "oper-state") members ≡ some (string state)
      → IsState (object members) (name, string state)
  unreported :
      (members : Members) (name : Text)
      → last_named (codes "name") members ≡ some (string name)
      → last_named (codes "oper-state") members ≡ none
      → IsState (object members) (name, null)

abbrev pub or_before : Option Json → Option Json → Option Json
or_before (some j) before = some j
or_before none before = before

-- the last state under a name
unfoldable pub last_state : Text → List (Text × Json) → Option Json
last_state name [] = none
last_state name ((n, state) ∷ states) =
    or_before (last_state name states) (if n == name then some state else none)

or_before-none : (j : Option Json) → or_before j none ≡ j
or_before-none none = refl
or_before-none (some j) = refl

or_before-if :
    (later before : Option Json) (b : Bool) (j : Json)
    → or_before later (if b then some j else before)
      ≡ or_before (or_before later (if b then some j else none)) before
or_before-if (some k) before b j = refl
or_before-if none before true j = refl
or_before-if none before false j = refl

or_before_assoc : (a b c : Option Json) → or_before a (or_before b c) ≡ or_before (or_before a b) c
or_before_assoc none b c = refl
or_before_assoc (some j) b c = refl

last_state-append :
    (name : Text) (a b : List (Text × Json))
    → last_state name (a ++ b) ≡ or_before (last_state name b) (last_state name a)
unfolding last_state
last_state-append name [] b = sym (or_before-none (last_state name b))
last_state-append name ((n, s) ∷ a) b = rw (last_state-append name a b) (
    sym (
      or_before_assoc (last_state name b) (last_state name a) (if n == name then some s else none)))

-- What the states that were read make of those that were there.
abbrev Notes : List (Text × Json) → (out out' : Dict Text Json) → Type 0
Notes states out out' =
    (name : Text) → Dict.get out' name ≡ or_before (last_state name states) (Dict.get out name)

note_states-at :
    (j : Json) (n : Text) (state : Json) (rest : List Json) (out : Dict Text Json)
    → IsState j (n, state)
    → note_states (denamespace j ∷ rest) out ≡ note_states rest (Dict.put out n state)
unfolding note_states
note_states-at j n state rest out (reported members _ s e f) =
    rw
      (
        get-denamespace (codes "name") members (some (string n)) e,
        get-denamespace (codes "oper-state") members (some (string s)) f,
        denamespace-string n,
        denamespace-string s,
      )
      refl
note_states-at j n state rest out (unreported members _ e f) =
    rw
      (
        get-denamespace (codes "name") members (some (string n)) e,
        get-denamespace (codes "oper-state") members none f,
        denamespace-string n,
      )
      refl

note_states-Notes :
    (items : Items) (states : List (Text × Json)) (out : Dict Text Json)
    → Each IsState items states
    → (out' : Dict Text Json) × (note_states (list_of (denamespace_items items)) out ≡ ok out')
      × Notes states out out'
unfolding list_of denamespace last_state
note_states-Notes items states out no_item = (out, unfold note_states in refl, λ name. refl)
note_states-Notes items states out (an_item j (n, state) rest more r each) =
    let (out', e, f) = note_states-Notes rest more (Dict.put out n state) each in
    (
      out',
      note_states-at j n state (list_of (denamespace_items rest)) out r ∙ e,
      λ name.
          f name
          ∙ ap (or_before (last_state name more)) (get-put out n name state)
          ∙ or_before-if (last_state name more) (Dict.get out name) (n == name) state,
    )

states_in-Notes :
    (values : List Json) (states : List (Text × Json)) (out : Dict Text Json)
    → Lists IsState (codes "tunnel") values states
    → (out' : Dict Text Json) × (states_in values out ≡ ok out') × Notes states out out'
unfolding states_in
states_in-Notes values states out no_value = (out, refl, λ name. unfold last_state in refl)
states_in-Notes values states out (lacking members rest _ e l) =
    let (out', g, f) = states_in-Notes rest states out l in
    (out', rw (entries-lacking (codes "tunnel") members e) (unfold note_states in g), f)
states_in-Notes values states out (holding members items rest here more all e each l join) =
    let (out1, g1, f1) = note_states-Notes items here out each in
    let (out2, g2, f2) = states_in-Notes rest more out1 l in
    (
      out2,
      rw (entries-holding (codes "tunnel") members items e, g1) g2,
      λ name.
          f2 name
          ∙ ap (or_before (last_state name more)) (f1 name)
          ∙ or_before_assoc (last_state name more) (last_state name here) (Dict.get out name)
          ∙ ap (λ j. or_before j (Dict.get out name)) (sym (last_state-append name here more))
          ∙ ap (λ l. or_before (last_state name l) (Dict.get out name)) (sym join),
    )

-- The states of an answer, each name with the last one that it has there.
pub states_in-Lists :
    (values : List Json) (states : List (Text × Json))
    → Lists IsState (codes "tunnel") values states
    → (out : Dict Text Json) × (states_in values [] ≡ ok out)
      × ((name : Text) → known_state (Dict.get out name) ≡ known_state (last_state name states))
unfolding Dict.get
states_in-Lists values states l =
    let (out, e, f) = states_in-Notes values states [] l in
    (out, e, λ name. ap known_state (f name ∙ or_before-none (last_state name states)))
