-- ===== src/Base/Hex.antt =====
-- `int(text, 16)` on hexadecimal digits, which the shapes' patterns guarantee, and the digits of a
-- number in a fixed width, as `f"{n:064x}"` writes a number that fits.
use Prim.Native.Nat.{ℕ, zero, suc, ◌+◌, ◌-◌, ◌*◌, ◌/◌, ◌%◌, ◌<◌}
use mathlib.Core.Path.{◌≡◌, refl, ◌∙◌}
use mathlib.Core.List.{[], ◌∷◌, ◌++◌}
use native.Mathlib.Omega.{arith}
use a2a_tokenized_provisioni.Base.Lists.{length, length-append}
use a2a_tokenized_provisioni.Base.Tests.{ltb, if◌then◌else◌}
use a2a_tokenized_provisioni.Base.Decimal.{Text, codes}

-- The value of a digit: `0-9`, `A-F` or `a-f`.
unfoldable pub hex_digit : ℕ → ℕ
hex_digit c = if ltb c 58 then c - 48 else if ltb c 97 then c - 55 else c - 87

unfoldable pub hex_from : ℕ → Text → ℕ
unfolding hex_digit
hex_from acc [] = acc
hex_from acc (c ∷ s) = hex_from (acc * 16 + hex_digit c) s

hex_2fA : hex_from 0 (codes "2fA") ≡ 762
unfolding hex_from
hex_2fA = refl

unfoldable pub hex_char : ℕ → ℕ
hex_char d = if ltb d 10 then d + 48 else d + 87

unfoldable pub hex_word : (width n : ℕ) → Text
hex_word zero n = []
hex_word (suc w) n = hex_word w (n / 16) ++ hex_char (n % 16) ∷ []

-- how many numbers so many digits write
abbrev pub room : ℕ → ℕ
room zero = 1
room (suc w) = 16 * room w

pub length-hex_word : (w n : ℕ) → length (hex_word w n) ≡ w
unfolding hex_word
length-hex_word zero n = refl
length-hex_word (suc w) n = omega (
  arith,
  length-append (hex_word w (n / 16)) (hex_char (n % 16) ∷ []),
  length-hex_word w (n / 16),
)

hex_from-append : (acc : ℕ) (s t : Text) → hex_from acc (s ++ t) ≡ hex_from (hex_from acc s) t
unfolding hex_from
hex_from-append acc [] t = refl
hex_from-append acc (c ∷ s) t = hex_from-append (acc * 16 + hex_digit c) s t

pub hex_digit-hex_char : (d : ℕ) → d < 16 → hex_digit (hex_char d) ≡ d
unfolding hex_digit hex_char
hex_digit-hex_char d h = ground (arith, h)

-- A number that fits comes back from its digits.
pub hex_from-hex_word : (w n : ℕ) → n < room w → hex_from 0 (hex_word w n) ≡ n
unfolding hex_word hex_from
hex_from-hex_word zero n h = omega (arith, h)
hex_from-hex_word (suc w) n h =
    hex_from-append 0 (hex_word w (n / 16)) (hex_char (n % 16) ∷ [])
    ∙ omega (
      arith,
      hex_from-hex_word w (n / 16) (omega (arith, h)),
      hex_digit-hex_char (n % 16) (omega arith),
    )
