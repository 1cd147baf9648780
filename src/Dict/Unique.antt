-- ===== src/Dict/Unique.antt =====
-- Dictionaries that hold each key once, as every one that is built by assignments does.
use a2a_tokenized_provisioni.Base.{
  ◌≡◌, refl, ◌≢◌, none, some, All, subst, [], ◌∷◌, ◌++◌, arith, Eq, ◌==◌, inl, inr, Bool-cases,
  beq_refl,
}
use mathlib.Core.List.{append_assoc}
use a2a_tokenized_provisioni.Dict.{Dict, get, put, get-put}

module _ {ℓ κ} {K : Type ℓ} {V : Type κ} ⦃e : Eq K⦄ where
  abbrev pub UniqueKeys : Dict K V → Type κ
  UniqueKeys [] = Unit
  UniqueKeys ((k, v) ∷ d) = (get d k ≡ none) × UniqueKeys d

  pub put-UniqueKeys : (d : Dict K V) (k : K) (v : V) → UniqueKeys d → UniqueKeys (put d k v)
  unfolding get put
  put-UniqueKeys [] k v h = (refl, tt)
  put-UniqueKeys ((j, w) ∷ d) k v h = elim (Bool-cases (j == k)) [
    | inl same ↦ rw same h
    | inr other ↦
        rw other
          (ground (arith, get-put d k j v, e.beq_iff k j, e.beq_iff j k), put-UniqueKeys d k v h.1)
  ]

  -- A second assignment of the same value changes nothing.
  pub put-put_self : (d : Dict K V) (k : K) (v : V) → put (put d k v) k v ≡ put d k v
  unfolding put
  put-put_self [] k v = rw (beq_refl k)
  put-put_self ((j, w) ∷ d) k v = ground (arith, put-put_self d k v)

  -- An entry behind others with other keys.
  pub get-append :
      (before : Dict K V) (k : K) (v : V) (rest : Dict K V)
      → get before k ≡ none
      → get (before ++ (k, v) ∷ rest) k ≡ some v
  unfolding get
  get-append [] k v rest h = rw (beq_refl k)
  get-append ((j, w) ∷ before) k v rest h = ground (arith, get-append before k v rest)

  pub put-append :
      (before : Dict K V) (k : K) (v w : V) (rest : Dict K V)
      → get before k ≡ none
      → put (before ++ (k, v) ∷ rest) k w ≡ before ++ (k, w) ∷ rest
  unfolding get put
  put-append [] k v w rest h = rw (beq_refl k)
  put-append ((j, u) ∷ before) k v w rest h = ground (arith, put-append before k v w rest)

  pub get-append_none :
      (before : Dict K V) (j k : K) (v : V)
      → get before j ≡ none
      → k ≢ j
      → get (before ++ (k, v) ∷ []) j ≡ none
  unfolding get
  get-append_none [] j k v h ne = ground (arith, e.beq_iff k j)
  get-append_none ((i, w) ∷ before) j k v h ne = ground (arith, get-append_none before j k v)

  absent_ne : (k : K) (d : Dict K V) → get d k ≡ none → All (λ p. k ≢ p.0) d
  unfolding get
  absent_ne k [] h = tt
  absent_ne k ((j, v) ∷ d) h =
      (λ p. ground (arith, e.beq_iff j k), absent_ne k d (ground (arith, e.beq_iff j k)))

  -- No key of `rest` is a key of `before`.
  abbrev pub Absent : Dict K V → Dict K V → Type κ
  Absent before rest = All (λ p. get before p.0 ≡ none) rest

  Absent-append_ne :
      (before rest : Dict K V) (k : K) (v : V)
      → Absent before rest
      → All (λ p. k ≢ p.0) rest
      → Absent (before ++ (k, v) ∷ []) rest
  Absent-append_ne before [] k v h n = tt
  Absent-append_ne before ((j, w) ∷ rest) k v h n =
      (get-append_none before j k v h.0 n.0, Absent-append_ne before rest k v h.1 n.1)

  pub Absent-append :
      (before rest : Dict K V) (k : K) (v : V)
      → Absent before rest
      → get rest k ≡ none
      → Absent (before ++ (k, v) ∷ []) rest
  Absent-append before rest k v h n = Absent-append_ne before rest k v h (absent_ne k rest n)

  get-entries_from :
      (before d : Dict K V)
      → UniqueKeys d
      → Absent before d
      → All (λ p. get (before ++ d) p.0 ≡ some p.1) d
  get-entries_from before [] u f = tt
  get-entries_from before ((k, v) ∷ d) u f = (
    get-append before k v d f.0,
    subst (λ (l : Dict K V). All (λ p. get l p.0 ≡ some p.1) d)
        (append_assoc before ((k, v) ∷ []) d)
        (get-entries_from (before ++ (k, v) ∷ []) d u.1 (Absent-append before d k v f.1 u.0)),
  )

  pub Absent-nil : (d : Dict K V) → Absent [] d
  unfolding get
  Absent-nil [] = tt
  Absent-nil (p ∷ d) = (refl, Absent-nil d)

  -- Each entry is what a lookup of its key finds.
  pub get-entries : (d : Dict K V) → UniqueKeys d → All (λ p. get d p.0 ≡ some p.1) d
  get-entries d u = get-entries_from [] d u (Absent-nil d)
