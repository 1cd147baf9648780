-- ===== src/Chainmcp/Watch/Calls.antt =====
-- client.py: the calls of the watcher, for one callback.
use a2a_tokenized_provisioni.Base.{
  ℕ, suc, ◌≡◌, refl, List, [], ◌∷◌, ◌++◌, map, ◌==◌, replicate, nat_eq, if◌then◌else◌, inl, inr,
  Bool-cases,
}
use a2a_tokenized_provisioni.Chainmcp.Watch.{deliver}

-- The ids that a callback was called with, in order.
unfoldable pub ids_for : (callback : ℕ) → List (ℕ × ℕ) → List ℕ
ids_for callback [] = []
ids_for callback ((c, id) ∷ calls) =
    let rest = ids_for callback calls in if c == callback then id ∷ rest else rest

-- How often a callback was registered.
unfoldable pub registered : (callback : ℕ) → List ℕ → ℕ
registered callback [] = 0
registered callback (c ∷ callbacks) =
    let rest = registered callback callbacks in if c == callback then suc rest else rest

-- Every id so many times.
unfoldable pub times : (n : ℕ) → List ℕ → List ℕ
times n [] = []
times n (id ∷ ids) = replicate n id ++ times n ids

pub ids_for-append :
    (callback : ℕ) (e f : List (ℕ × ℕ))
    → ids_for callback (e ++ f) ≡ ids_for callback e ++ ids_for callback f
unfolding ids_for
ids_for-append callback [] f = refl
ids_for-append callback ((c, id) ∷ e) f = elim (Bool-cases (c == callback)) [
  | inl own ↦ rw (own, ids_for-append callback e f) refl
  | inr other ↦ rw (other, ids_for-append callback e f) refl
]

ids_for-one :
    (callback id : ℕ) (callbacks : List ℕ)
    → ids_for callback (map (λ c. (c, id)) callbacks) ≡ replicate (registered callback callbacks) id
unfolding ids_for registered
ids_for-one callback id [] = refl
ids_for-one callback id (c ∷ callbacks) = elim (Bool-cases (c == callback)) [
  | inl own ↦ rw (own, ids_for-one callback id callbacks) refl
  | inr other ↦ rw (other, ids_for-one callback id callbacks) refl
]

pub ids_for-deliver :
    (callback : ℕ) (callbacks ids : List ℕ)
    → ids_for callback (deliver callbacks ids) ≡ times (registered callback callbacks) ids
unfolding deliver times ids_for
ids_for-deliver callback callbacks [] = refl
ids_for-deliver callback callbacks (id ∷ ids) =
    rw
      (
        ids_for-append callback (map (λ c. (c, id)) callbacks) (deliver callbacks ids),
        ids_for-one callback id callbacks,
        ids_for-deliver callback callbacks ids,
      )
      refl
