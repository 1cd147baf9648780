-- ===== src/Base/Decimal.antt =====
-- Text as a list of code points, and `str` of a natural number.
use Prim.Native.Char.{code}
use Prim.Native.String.{String}
use Prim.Native.Nat.{ℕ, zero, suc, ◌+◌, ◌-◌, ◌*◌, ◌/◌, ◌%◌, ◌<◌, ◌≤◌}
use mathlib.Core.Path.{◌≡◌, refl, ap, sym, ◌∙◌}
use mathlib.Core.Logic.{◌≢◌, inl, inr}
use mathlib.Core.List.{List, [], ◌∷◌, ◌++◌}
use native.Mathlib.Omega.{arith}
use a2a_tokenized_provisioni.Base.Tests.{ltb, if◌then◌else◌, Bool-cases}
use a2a_tokenized_provisioni.Base.Lists.{All, All-append, All-map}

abbrev pub Text : Type 0
Text = List ℕ

abbrev pub codes : String → Text
codes String.[] = []
codes (String.◌∷◌ c s) = code c ∷ codes s

-- The digits of `n`; one round of fuel for each digit, and `n + 1` rounds are enough.
digits_from : ℕ → ℕ → Text
digits_from zero n = []
digits_from (suc f) n =
    let rest = digits_from f (n / 10) in
    if ltb n 10 then (48 + n) ∷ [] else rest ++ (48 + n % 10) ∷ []

-- `str(n)`
unfoldable pub decimal : ℕ → Text
unfolding digits_from
decimal n = digits_from (suc n) n

abbrev pub IsDigit : ℕ → Type 0
IsDigit c = (48 ≤ c) × (c ≤ 57)

-- The number that a run of digits writes, after `acc`.
abbrev value_from : ℕ → Text → ℕ
value_from acc [] = acc
value_from acc (d ∷ s) = value_from (acc * 10 + (d - 48)) s

value_from-append :
    (acc : ℕ) (s : Text) (d : ℕ) → value_from acc (s ++ d ∷ []) ≡ value_from acc s * 10 + (d - 48)
value_from-append acc [] d = refl
value_from-append acc (c ∷ s) d = value_from-append (acc * 10 + (c - 48)) s d

value_from-digits_from : (f n : ℕ) → n < f → value_from 0 (digits_from f n) ≡ n
unfolding digits_from
value_from-digits_from zero n h = absurd (omega arith)
value_from-digits_from (suc f) n h = elim (Bool-cases (ltb n 10)) [
  | inl small ↦ rw small (omega arith)
  | inr large ↦
      let below : n / 10 < f = ground arith in
      rw (large, value_from-append 0 (digits_from f (n / 10)) (48 + n % 10))
        (omega (arith, value_from-digits_from f (n / 10) below))
]

digits_from-IsDigit : (f n : ℕ) → All IsDigit (digits_from f n)
unfolding digits_from
digits_from-IsDigit zero n = tt
digits_from-IsDigit (suc f) n = elim (Bool-cases (ltb n 10)) [
  | inl small ↦ rw small (ground arith)
  | inr large ↦ rw large (
      All-append IsDigit (digits_from f (n / 10)) ((48 + n % 10) ∷ [])
        (digits_from-IsDigit f (n / 10)) (omega arith))
]

pub decimal-IsDigit : (n : ℕ) → All IsDigit (decimal n)
unfolding decimal
decimal-IsDigit n = digits_from-IsDigit (suc n) n

-- A character that is no digit is not in a number's text.
pub decimal-ne : (c n : ℕ) → ¬ IsDigit c → All (λ x. x ≢ c) (decimal n)
decimal-ne c n h =
    All-map IsDigit (λ x. x ≢ c) (decimal n) (λ x d e. h (rw (← e) d)) (decimal-IsDigit n)

pub decimal_injective : (n m : ℕ) → decimal n ≡ decimal m → n ≡ m
unfolding decimal
decimal_injective n m e =
    sym (value_from-digits_from (suc n) n (omega arith))
    ∙ ap (value_from 0) e
    ∙ value_from-digits_from (suc m) m (omega arith)

decimal_250 : decimal 250 ≡ codes "250"
unfolding decimal
decimal_250 = refl
