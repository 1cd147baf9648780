-- ===== src/Netctl/Gnmi/Readout/Destinations.antt =====
-- provisioner.py: the destinations and the tunnels that `telemetry_config` keeps of an answer.
use a2a_tokenized_provisioni.Base.{
  ◌≡◌, refl, none, some, List, [], ◌∷◌, ◌++◌, if◌then◌else◌, text_eq, inl, inr, Bool-cases,
  starts_with, All,
}
use a2a_tokenized_provisioni.Base.Decimal.{Text, codes}
use a2a_tokenized_provisioni.Exec.{Result, ok, and_then}
use a2a_tokenized_provisioni.Netctl.Gnmi.Json
use a2a_tokenized_provisioni.Netctl.Gnmi.Json.{
  Json, null, truth, string, array, object, Items, Members, end, put_member, find_member,
  denamespace, denamespace_members, denamespace_items, list_of,
}
use a2a_tokenized_provisioni.Netctl.Gnmi.Json.Keys.{last_named, get-denamespace}
use a2a_tokenized_provisioni.Netctl.Gnmi.Reads.{node_of, gather}
use a2a_tokenized_provisioni.Netctl.Gnmi.Reads.Shapes.{
  IsNamed, has_name, Each, no_item, an_item, Lists, no_value, lacking, holding, entries-holding,
  entries-lacking,
}
use a2a_tokenized_provisioni.Netctl.Gnmi.Readout.{
  is_ours, our_destinations, text_of, tunnel_names, exports_in,
}

-- A destination with its name and all of its members.
pub data IsExport : Json → Text × Members → Type 0 where
  an_export :
      (members : Members) (name : Text)
      → last_named (codes "name") members ≡ some (string name)
      → IsExport (object members) (name, members)

-- the product's destinations, without modules
unfoldable pub kept : List (Text × Members) → List Json
kept [] = []
kept ((name, members) ∷ exports) =
    let rest = kept exports in
    if starts_with (codes "a2a-") name then denamespace (object members) ∷ rest else rest

kept-append : (a b : List (Text × Members)) → kept (a ++ b) ≡ kept a ++ kept b
unfolding kept
kept-append [] b = refl
kept-append ((name, members) ∷ a) b = elim (Bool-cases (starts_with (codes "a2a-") name)) [
  | inl mine ↦ rw (mine, kept-append a b) refl
  | inr other ↦ rw (other, kept-append a b) refl
]

abbrev ours_of : Json → Result (List Json)
ours_of d =
    and_then (Json.get (codes "name") d)
      λ n. and_then (is_ours n) λ ours. ok (if ours then d ∷ [] else [])

gather-ours_of :
    (items : Items) (exports : List (Text × Members))
    → Each IsExport items exports
    → gather ours_of (list_of (denamespace_items items)) ≡ ok (kept exports)
unfolding gather list_of denamespace_items kept
gather-ours_of items exports no_item = refl
gather-ours_of items exports (an_item j _ rest more (an_export members name e) each) =
    let named = get-denamespace (codes "name") members (some (string name)) e in
    elim (Bool-cases (starts_with (codes "a2a-") name)) [
      | inl mine ↦ rw (named, mine, gather-ours_of rest more each) refl
      | inr other ↦ rw (named, other, gather-ours_of rest more each) refl
    ]

gather-names :
    (items : Items) (tunnels : List Text)
    → Each IsNamed items tunnels
    → gather
        (λ t. and_then (Json.get (codes "name") t) λ n. ok (text_of n))
        (list_of (denamespace_items items))
      ≡ ok tunnels
unfolding gather list_of denamespace_items
gather-names items tunnels no_item = refl
gather-names items tunnels (an_item j _ rest more (has_name members name e) each) =
    rw (get-denamespace (codes "name") members (some (string name)) e, gather-names rest more each)
      refl

our_destinations-holding :
    (members : Members) (items : Items) (exports : List (Text × Members))
    → last_named (codes "destination") members ≡ some (array items)
    → Each IsExport items exports
    → our_destinations (node_of (object members)) ≡ ok (kept exports)
unfolding our_destinations
our_destinations-holding members items exports e each =
    rw (entries-holding (codes "destination") members items e) (gather-ours_of items exports each)

our_destinations-lacking :
    (members : Members)
    → last_named (codes "destination") members ≡ none
    → our_destinations (node_of (object members)) ≡ ok []
unfolding our_destinations gather
our_destinations-lacking members e = rw (entries-lacking (codes "destination") members e) refl

tunnel_names-holding :
    (members : Members) (items : Items) (tunnels : List Text)
    → last_named (codes "tunnel") members ≡ some (array items)
    → Each IsNamed items tunnels
    → tunnel_names (node_of (object members)) ≡ ok tunnels
unfolding tunnel_names
tunnel_names-holding members items tunnels e each =
    rw (entries-holding (codes "tunnel") members items e) (gather-names items tunnels each)

tunnel_names-lacking :
    (members : Members)
    → last_named (codes "tunnel") members ≡ none
    → tunnel_names (node_of (object members)) ≡ ok []
unfolding tunnel_names gather
tunnel_names-lacking members e = rw (entries-lacking (codes "tunnel") members e) refl

pub exports_in-Lists :
    (values : List Json) (exports : List (Text × Members)) (tunnels : List Text)
    → Lists IsExport (codes "destination") values exports
    → Lists IsNamed (codes "tunnel") values tunnels
    → exports_in values ≡ ok (kept exports, tunnels)
unfolding exports_in
exports_in-Lists values exports tunnels no_value no_value = unfold kept in refl
exports_in-Lists values exports tunnels (lacking members rest _ e l) (lacking _ _ _ e' l') =
    rw
      (
        our_destinations-lacking members e,
        tunnel_names-lacking members e',
        exports_in-Lists rest exports tunnels l l',
      )
      refl
exports_in-Lists values exports tunnels (lacking members rest _ e l)
      (holding _ items' _ here' more' _ e' each' l' join') =
    rw
      (
        our_destinations-lacking members e,
        tunnel_names-holding members items' here' e' each',
        exports_in-Lists rest exports more' l l',
        join',
      )
      refl
exports_in-Lists values exports tunnels (holding members items rest here more _ e each l join)
      (lacking _ _ _ e' l') =
    rw
      (
        our_destinations-holding members items here e each,
        tunnel_names-lacking members e',
        exports_in-Lists rest more tunnels l l',
        join,
        kept-append here more,
      )
      refl
exports_in-Lists values exports tunnels (holding members items rest here more _ e each l join)
      (holding _ items' _ here' more' _ e' each' l' join') =
    rw
      (
        our_destinations-holding members items here e each,
        tunnel_names-holding members items' here' e' each',
        exports_in-Lists rest more more' l l',
        join,
        join',
        kept-append here more,
      )
      refl

-- Every destination has its name among its members.
abbrev pub Named : List (Text × Members) → Type 0
Named exports = All (λ e. last_named (codes "name") e.1 ≡ some (string e.0)) exports

Named-append : (a b : List (Text × Members)) → Named a → Named b → Named (a ++ b)
Named-append [] b h k = k
Named-append (e ∷ a) b h k = (h.0, Named-append a b h.1 k)

Each-Named :
    (items : Items) (exports : List (Text × Members)) → Each IsExport items exports → Named exports
Each-Named items exports no_item = tt
Each-Named items exports (an_item j _ rest more (an_export members name e) each) =
    (e, Each-Named rest more each)

pub Lists-Named :
    (values : List Json) (exports : List (Text × Members))
    → Lists IsExport (codes "destination") values exports
    → Named exports
Lists-Named values exports no_value = tt
Lists-Named values exports (lacking members rest _ e l) = Lists-Named rest exports l
Lists-Named values exports (holding members items rest here more _ e each l join) =
    rw join (Named-append here more (Each-Named items here each) (Lists-Named rest more l))
