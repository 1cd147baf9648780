-- ===== src/Dict.antt =====
-- Python's `dict`: an association list in insertion order. An assignment to a key that is there
-- keeps its place, and a new key goes to the end, which is the order in which a loop sees them.
pub mod Unique
use a2a_tokenized_provisioni.Base.{
  ◌≡◌, refl, ◌≢◌, ◌⊎◌, Option, none, some, List, [], ◌∷◌, map, arith, Eq, ◌==◌, if◌then◌else◌,
  beq_refl, beq_ne,
}

abbrev pub Dict {ℓ κ} : Type ℓ → Type κ → Type (ℓ ⊔ κ)
Dict K V = List (K × V)

module _ {ℓ κ} {K : Type ℓ} {V : Type κ} ⦃e : Eq K⦄ where
  -- `d.get(k)`
  unfoldable pub get : Dict K V → K → Option V
  get [] k = none
  get ((j, v) ∷ d) k = if j == k then some v else get d k

  -- `d[k] = v`
  unfoldable pub put : Dict K V → K → V → Dict K V
  put [] k v = (k, v) ∷ []
  put ((j, w) ∷ d) k v = if j == k then (j, v) ∷ d else (j, w) ∷ put d k v

  -- `d.pop(k, None)`
  unfoldable pub remove : Dict K V → K → Dict K V
  remove [] k = []
  remove ((j, w) ∷ d) k = let rest = remove d k in if j == k then rest else (j, w) ∷ rest

  pub get-nil : (k : K) → ◌≡◌ {A = Option V} (get [] k) none
  unfolding get
  get-nil k = refl

  pub get-put :
      (items : Dict K V) (k j : K) (v : V)
      → get (put items k v) j ≡ (if k == j then some v else get items j)
  unfolding get put
  get-put [] k j v = refl
  get-put ((i, w) ∷ items) k j v =
      ground (arith, get-put items k j v, e.beq_iff i k, e.beq_iff i j, e.beq_iff k j)

  pub get-remove :
      (items : Dict K V) (k j : K) → get (remove items k) j ≡ (if k == j then none else get items j)
  unfolding get remove
  get-remove [] k j = ground arith
  get-remove ((i, w) ∷ items) k j =
      ground (arith, get-remove items k j, e.beq_iff i k, e.beq_iff i j, e.beq_iff k j)

  pub get-put_self : (d : Dict K V) (k : K) (v : V) → get (put d k v) k ≡ some v
  get-put_self d k v = simp (get-put, beq_refl)

  pub get-put_ne : (d : Dict K V) (k j : K) (v : V) → k ≢ j → get (put d k v) j ≡ get d j
  get-put_ne d k j v h = simp (get-put, beq_ne k j h)

  pub get-remove_self : (d : Dict K V) (k : K) → get (remove d k) k ≡ none
  get-remove_self d k = simp (get-remove, beq_refl)

  pub get-remove_ne : (d : Dict K V) (k j : K) → k ≢ j → get (remove d k) j ≡ get d j
  get-remove_ne d k j h = simp (get-remove, beq_ne k j h)

-- `list(d.values())`, `list(d)`
unfoldable pub values {ℓ κ} : {K : Type ℓ} {V : Type κ} → Dict K V → List V
values d = map (λ p. p.1) d

unfoldable pub keys {ℓ κ} : {K : Type ℓ} {V : Type κ} → Dict K V → List K
keys d = map (λ p. p.0) d

-- What an entry of a dictionary was before an assignment.
pub put-cases {ℓ κ} :
    {K : Type ℓ} {V : Type κ} ⦃e : Eq K⦄ (d : Dict K V) (k j : K) (v w : V)
    → get (put d k v) j ≡ some w
    → ((k ≡ j) × (v ≡ w)) ⊎ ((k ≢ j) × (get d j ≡ some w))
put-cases ⦃e⦄ d k j v w h = ground (arith, get-put d k j v, e.beq_iff k j)
