-- ===== src/Controller/ResourceMap/Loads.antt =====
-- resource_map.py: what a loaded map resolves, and which files do not load.
use a2a_tokenized_provisioni.Base.{
  ◌≡◌, refl, ap, ◌∙◌, Option, some, List, [], ◌∷◌, ◌++◌, ◌==◌, if◌then◌else◌, inl, inr, text_eq,
}
use a2a_tokenized_provisioni.Base.Decimal.{Text}
use a2a_tokenized_provisioni.Exec.{Exception, Result, ok, raised, Result-cases}
use a2a_tokenized_provisioni.Dict
use a2a_tokenized_provisioni.Dict.{Dict, get-put}
use a2a_tokenized_provisioni.Interfaces.{Bytes, Resolved}
use a2a_tokenized_provisioni.Controller.ResourceMap.Entries.{Entry, load_entry-Entry}
use a2a_tokenized_provisioni.Controller.ResourceMap.{Spec, load_entry, load_from, load_resource_map}

-- The entries of a file that loads, each with its key and value.
pub data Loaded : List (Text × Spec) → List (Bytes × Resolved) → Type 0 where
  none_left : Loaded [] []
  one_more :
      (entry : Text × Spec) (entries : List (Text × Spec)) (key : Bytes) (resolved : Resolved)
      (rest : List (Bytes × Resolved))
      → Entry entry (ok (key, resolved))
      → Loaded entries rest
      → Loaded (entry ∷ entries) ((key, resolved) ∷ rest)

-- The last entry for a key, or else what was there before.
abbrev pub last_for : Option Resolved → List (Bytes × Resolved) → Bytes → Option Resolved
last_for before [] key = before
last_for before ((k, resolved) ∷ rest) key =
    last_for (if k == key then some resolved else before) rest key

-- The end of a load: every entry loaded and a key finds its last entry, or the first entry that
-- does not load raises its exception.
pub data Outcome (before : Dict Bytes Resolved)
    : List (Text × Spec) → Result (Dict Bytes Resolved) → Type 0 where
  loaded :
      (entries : List (Text × Spec)) (values : List (Bytes × Resolved))
      (resource_map : Dict Bytes Resolved)
      → Loaded entries values
      → ((key : Bytes) → Dict.get resource_map key ≡ last_for (Dict.get before key) values key)
      → Outcome before entries (ok resource_map)
  refused :
      (good : List (Text × Spec)) (values : List (Bytes × Resolved)) (bad : Text × Spec)
      (rest : List (Text × Spec)) (x : Exception)
      → Loaded good values
      → Entry bad (raised x)
      → Outcome before (good ++ bad ∷ rest) (raised x)

Outcome-cons :
    (before : Dict Bytes Resolved) (entry : Text × Spec) (entries : List (Text × Spec))
    (key : Bytes) (resolved : Resolved) (r : Result (Dict Bytes Resolved))
    → Entry entry (ok (key, resolved))
    → Outcome (Dict.put before key resolved) entries r
    → Outcome before (entry ∷ entries) r
Outcome-cons before entry entries key resolved r e (loaded _ values resource_map l f) =
    loaded (entry ∷ entries) ((key, resolved) ∷ values) resource_map
      (one_more entry entries key resolved values e l)
      (λ k. f k ∙ ap (λ o. last_for o values k) (get-put before key k resolved))
Outcome-cons before entry entries key resolved r e (refused good values bad rest x l p) =
    refused (entry ∷ good) ((key, resolved) ∷ values) bad rest x
      (one_more entry good key resolved values e l) p

load_from-Outcome :
    (before : Dict Bytes Resolved) (entries : List (Text × Spec))
    → Outcome before entries (load_from before entries)
unfolding load_from
load_from-Outcome before [] = loaded [] [] before none_left (λ k. refl)
load_from-Outcome before ((text, spec) ∷ entries) =
    let entry : Text × Spec = (text, spec) in
    let found = load_entry-Entry text spec in
    elim (Result-cases (load_entry entry)) [
      | inl ((key, resolved), e) ↦ rw e (
          Outcome-cons before entry entries key resolved
            (load_from (Dict.put before key resolved) entries) (rw e at found)
            (load_from-Outcome (Dict.put before key resolved) entries))
      | inr (x, e) ↦ rw e (refused [] [] entry entries x none_left (rw e at found))
    ]

-- A file loads exactly as far as its entries do. A key of an entry writes its bytes in hexadecimal
-- digits, with or without 0x before them; a path names its device, ingress and egress and a node
-- its device. With all entries read, a key of the map finds the last entry that writes it, and no
-- other key is there. The first entry that cannot be read stops the load: ValueError for a key
-- that writes no bytes or for another kind, KeyError for a field that is missing.
pub load_resource_map_lem :
    (entries : List (Text × Spec)) → Outcome [] entries (load_resource_map (some entries))
unfolding load_resource_map
load_resource_map_lem entries = load_from-Outcome [] entries
