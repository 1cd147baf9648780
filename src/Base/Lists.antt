-- ===== src/Base/Lists.antt =====
-- Lists measured by native numbers, membership as a Boolean test, and predicates by recursion.
use Prim.Native.Nat.{ℕ, zero, suc, ◌+◌}
use mathlib.Core.Path.{◌≡◌, refl, ap}
use mathlib.Core.Logic.{◌≢◌}
use mathlib.Core.List.{List, [], ◌∷◌, ◌++◌}
use native.Mathlib.Omega.{arith}

module _ {ℓ} {A : Type ℓ} where
  abbrev pub length : List A → ℕ
  length [] = 0
  length (x ∷ xs) = suc (length xs)

  pub length-append : (xs ys : List A) → length (xs ++ ys) ≡ length xs + length ys
  length-append [] ys = omega arith
  length-append (x ∷ xs) ys = omega (arith, length-append xs ys)

abbrev pub All {ℓ κ} : {A : Type ℓ} → (A → Type κ) → List A → Type κ
All Good [] = Unit
All Good (a ∷ rest) = Good a × All Good rest

pub All-append {ℓ κ} :
    {A : Type ℓ} (Good : A → Type κ) (front back : List A)
    → All Good front
    → All Good back
    → All Good (front ++ back)
All-append Good [] back h i = i
All-append Good (a ∷ front) back h i = (h.0, All-append Good front back h.1 i)

pub All-map {ℓ κ μ} :
    {A : Type ℓ} (P : A → Type κ) (Q : A → Type μ) (xs : List A)
    → ((x : A) → P x → Q x)
    → All P xs
    → All Q xs
All-map P Q [] f h = tt
All-map P Q (x ∷ xs) f h = (f x h.0, All-map P Q xs f h.1)

-- Two texts that agree up to a separator which neither part holds agree in both parts.
pub append-separator :
    (c : ℕ) (s t u v : List ℕ)
    → All (λ x. x ≢ c) s
    → All (λ x. x ≢ c) t
    → (s ++ c ∷ u) ≡ (t ++ c ∷ v)
    → (s ≡ t) × (u ≡ v)
append-separator c [] [] u v hs ht e = (refl, cc)
append-separator c [] (y ∷ t) u v hs ht e = absurd (ht.0 (cc))
append-separator c (x ∷ s) [] u v hs ht e = absurd (hs.0 (cc))
append-separator c (x ∷ s) (y ∷ t) u v hs ht e =
    let r : (s ≡ t) × (u ≡ v) = append-separator c s t u v hs.1 ht.1 (cc) in (cc, r.1)

pub append_cancel {ℓ} : {A : Type ℓ} (s : List A) {u v : List A} → (s ++ u) ≡ (s ++ v) → u ≡ v
append_cancel [] e = e
append_cancel (x ∷ s) e = append_cancel s (cc)

module _ {ℓ} {A : Type ℓ} where
  abbrev pub take : ℕ → List A → List A
  take zero xs = []
  take (suc n) [] = []
  take (suc n) (x ∷ xs) = x ∷ take n xs

  abbrev pub drop : ℕ → List A → List A
  drop zero xs = xs
  drop (suc n) [] = []
  drop (suc n) (x ∷ xs) = drop n xs

  abbrev pub replicate : ℕ → A → List A
  replicate zero x = []
  replicate (suc n) x = x ∷ replicate n x

  pub take-append : (xs ys : List A) → take (length xs) (xs ++ ys) ≡ xs
  take-append [] ys = refl
  take-append (x ∷ xs) ys = ap (λ l. x ∷ l) (take-append xs ys)

  pub drop-append : (xs ys : List A) → drop (length xs) (xs ++ ys) ≡ ys
  drop-append [] ys = refl
  drop-append (x ∷ xs) ys = drop-append xs ys

  pub take-length : (xs : List A) → take (length xs) xs ≡ xs
  take-length [] = refl
  take-length (x ∷ xs) = ap (λ l. x ∷ l) (take-length xs)
