-- ===== src/Netctl/Gnmi/Reads/Shapes.antt =====
-- provisioner.py: what the JSON of an answer says of the configuration, by the keys that are read.
-- Any module may stand before a key, and any other keys beside it, at every level.
use a2a_tokenized_provisioni.Base.{
  ◌≡◌, refl, Option, none, some, List, [], ◌∷◌, ◌++◌, ◌==◌, if◌then◌else◌, text_eq, inl, inr,
  Bool-cases,
}
use a2a_tokenized_provisioni.Base.Decimal.{Text, codes}
use a2a_tokenized_provisioni.Exec.{Result, ok, and_then}
use a2a_tokenized_provisioni.Netctl.Gnmi.{attached, named}
use a2a_tokenized_provisioni.Netctl.Gnmi.Json
use a2a_tokenized_provisioni.Netctl.Gnmi.Json.{
  Json, string, array, object, Items, nil, cons, Members, list_of, denamespace, denamespace_items,
  or_empty, iterate,
}
use a2a_tokenized_provisioni.Netctl.Gnmi.Json.Keys.{last_named, get-denamespace}
use a2a_tokenized_provisioni.Netctl.Gnmi.Reads.{
  entries, node_of, gather, attachment_of, attachments_in, named_in, is_text,
}

-- An interface with its id, and the template that is attached to its input, if there is one.
pub data IsInterface : Json → Text × Option Text → Type 0 where
  bound :
      (interface input templates : Members) (id template : Text)
      → last_named (codes "interface-id") interface ≡ some (string id)
      → last_named (codes "input") interface ≡ some (object input)
      → last_named (codes "policer-templates") input ≡ some (object templates)
      → last_named (codes "policer-template") templates ≡ some (string template)
      → IsInterface (object interface) (id, some template)
  no_templates :
      (interface input : Members) (id : Text)
      → last_named (codes "interface-id") interface ≡ some (string id)
      → last_named (codes "input") interface ≡ some (object input)
      → last_named (codes "policer-templates") input ≡ none
      → IsInterface (object interface) (id, none)
  no_input :
      (interface : Members) (id : Text)
      → last_named (codes "interface-id") interface ≡ some (string id)
      → last_named (codes "input") interface ≡ none
      → IsInterface (object interface) (id, none)

-- An entry of a list with its name.
pub data IsNamed : Json → Text → Type 0 where
  has_name :
      (members : Members) (name : Text)
      → last_named (codes "name") members ≡ some (string name)
      → IsNamed (object members) name

pub data Each {A : Type 0} (R : Json → A → Type 0) : Items → List A → Type 0 where
  no_item : Each R nil []
  an_item :
      (j : Json) (a : A) (items : Items) (rest : List A)
      → R j a
      → Each R items rest
      → Each R (cons j items) (a ∷ rest)

-- The values of an answer, with the entries of the list under a key: a value may lack the list.
pub data Lists {A : Type 0} (R : Json → A → Type 0) (key : Text) : List Json → List A → Type 0 where
  no_value : Lists R key [] []
  lacking :
      (members : Members) (values : List Json) (found : List A)
      → last_named key members ≡ none
      → Lists R key values found
      → Lists R key (object members ∷ values) found
  holding :
      (members : Members) (items : Items) (values : List Json) (here more all : List A)
      → last_named key members ≡ some (array items)
      → Each R items here
      → Lists R key values more
      → all ≡ here ++ more
      → Lists R key (object members ∷ values) all

attached-append :
    (name : Text) (a b : List (Text × Option Text))
    → attached name (a ++ b) ≡ attached name a ++ attached name b
unfolding attached
attached-append name [] b = refl
attached-append name ((id, none) ∷ a) b = attached-append name a b
attached-append name ((id, some t) ∷ a) b = elim (Bool-cases (t == name)) [
  | inl own ↦ rw (own, attached-append name a b) refl
  | inr other ↦ rw (other, attached-append name a b) refl
]

pub named-append :
    (name target : Text) (a b : List Text)
    → named name target (a ++ b) ≡ named name target a ++ named name target b
unfolding named
named-append name target [] b = refl
named-append name target (n ∷ a) b = elim (Bool-cases (n == name)) [
  | inl own ↦ rw (own, named-append name target a b) refl
  | inr other ↦ rw (other, named-append name target a b) refl
]

-- `entries` of a value whose list is there, and of one that lacks it
pub entries-holding :
    (key : Text) (members : Members) (items : Items)
    → last_named key members ≡ some (array items)
    → entries key (node_of (object members)) ≡ ok (list_of (denamespace_items items))
unfolding entries node_of or_empty iterate
entries-holding key members items e =
    rw (get-denamespace key members (some (array items)) e) (unfold denamespace in refl)

pub entries-lacking :
    (key : Text) (members : Members)
    → last_named key members ≡ none
    → entries key (node_of (object members)) ≡ ok []
unfolding entries node_of or_empty iterate list_of
entries-lacking key members e = rw (get-denamespace key members none e) refl

pub denamespace-string : (s : Text) → denamespace (string s) ≡ string s
unfolding denamespace
denamespace-string s = refl

module _ (shown : Json → Text) (name : Text) where
  attachment_of-IsInterface :
      (j : Json) (found : Text × Option Text)
      → IsInterface j found
      → attachment_of shown name (denamespace j) ≡ ok (attached name (found ∷ []))
  unfolding attachment_of attached Json.get
  attachment_of-IsInterface j found (bound interface input templates id template a b c d) =
      elim (Bool-cases (template == name)) [
        | inl own ↦
            rw
              (
                get-denamespace (codes "input") interface (some (object input)) b,
                get-denamespace (codes "policer-templates") input (some (object templates)) c,
                get-denamespace (codes "policer-template") templates (some (string template)) d,
                denamespace-string template,
                get-denamespace (codes "interface-id") interface (some (string id)) a,
                denamespace-string id,
                own,
              )
              refl
        | inr other ↦
            rw
              (
                get-denamespace (codes "input") interface (some (object input)) b,
                get-denamespace (codes "policer-templates") input (some (object templates)) c,
                get-denamespace (codes "policer-template") templates (some (string template)) d,
                denamespace-string template,
                other,
              )
              refl
      ]
  attachment_of-IsInterface j found (no_templates interface input id a b c) =
      rw
        (
          get-denamespace (codes "input") interface (some (object input)) b,
          get-denamespace (codes "policer-templates") input none c,
        )
        refl
  attachment_of-IsInterface j found (no_input interface id a b) =
      rw (get-denamespace (codes "input") interface none b) refl

  gather-attachment_of :
      (items : Items) (found : List (Text × Option Text))
      → Each IsInterface items found
      → gather (attachment_of shown name) (list_of (denamespace_items items))
        ≡ ok (attached name found)
  unfolding gather list_of denamespace
  gather-attachment_of items found no_item = unfold attached in refl
  gather-attachment_of items found (an_item j a rest more r each) =
      rw
        (
          attachment_of-IsInterface j a r,
          gather-attachment_of rest more each,
          attached-append name (a ∷ []) more,
        )
        refl

  pub attachments_in-Lists :
      (values : List Json) (found : List (Text × Option Text))
      → Lists IsInterface (codes "interface") values found
      → attachments_in shown name values ≡ ok (attached name found)
  unfolding attachments_in gather
  attachments_in-Lists values found no_value = unfold attached in refl
  attachments_in-Lists values found (lacking members rest _ e l) =
      rw (entries-lacking (codes "interface") members e, attachments_in-Lists rest found l) refl
  attachments_in-Lists values found (holding members items rest here more all e each l join) =
      rw
        (
          entries-holding (codes "interface") members items e,
          gather-attachment_of items here each,
          attachments_in-Lists rest more l,
          join,
          attached-append name here more,
        )
        refl

module _ (name target : Text) where
  -- the body of the loop of `named_in`
  abbrev named_at : Json → Result (List Text)
  named_at j =
      and_then (Json.get (codes "name") j) λ n. ok (if is_text n name then target ∷ [] else [])

  named_at-IsNamed :
      (j : Json) (n : Text)
      → IsNamed j n
      → named_at (denamespace j) ≡ ok (if n == name then target ∷ [] else [])
  named_at-IsNamed j n (has_name members _ e) =
      rw (get-denamespace (codes "name") members (some (string n)) e, denamespace-string n) refl

  gather-named_at :
      (items : Items) (found : List Text)
      → Each IsNamed items found
      → gather named_at (list_of (denamespace_items items)) ≡ ok (named name target found)
  unfolding gather list_of denamespace named
  gather-named_at items found no_item = refl
  gather-named_at items found (an_item j n rest more r each) = elim (Bool-cases (n == name)) [
    | inl own ↦ rw (named_at-IsNamed j n r, gather-named_at rest more each, own) refl
    | inr other ↦ rw (named_at-IsNamed j n r, gather-named_at rest more each, other) refl
  ]

  pub named_in-holding :
      (key : Text) (members : Members) (items : Items) (found : List Text)
      → last_named key members ≡ some (array items)
      → Each IsNamed items found
      → named_in key name target (node_of (object members)) ≡ ok (named name target found)
  unfolding named_in
  named_in-holding key members items found e each =
      rw (entries-holding key members items e) (gather-named_at items found each)

  pub named_in-lacking :
      (key : Text) (members : Members)
      → last_named key members ≡ none
      → named_in key name target (node_of (object members)) ≡ ok []
  unfolding named_in gather
  named_in-lacking key members e = rw (entries-lacking key members e) refl

  -- the entries of one value, before those of the others
  pub gather-named_in :
      (key : Text) (values : List Json) (found : List Text)
      → Lists IsNamed key values found
      → gather (λ value. named_in key name target (node_of value)) values
        ≡ ok (named name target found)
  unfolding gather
  gather-named_in key values found no_value = unfold named in refl
  gather-named_in key values found (lacking members rest _ e l) =
      rw (named_in-lacking key members e, gather-named_in key rest found l) refl
  gather-named_in key values found (holding members items rest here more all e each l join) =
      rw
        (
          named_in-holding key members items here e each,
          gather-named_in key rest more l,
          join,
          named-append name target here more,
        )
        refl
