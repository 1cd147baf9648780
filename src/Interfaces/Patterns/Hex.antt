-- ===== src/Interfaces/Patterns/Hex.antt =====
-- models.py: texts of digits that a program writes fit the patterns.
use a2a_tokenized_provisioni.Base.{
  ℕ, zero, suc, ◌/◌, ◌%◌, ◌<◌, ◌≡◌, refl, true, [], ◌∷◌, ◌++◌, arith,
}
use mathlib.Core.List.{append_assoc}
use a2a_tokenized_provisioni.Base.Decimal.{Text}
use a2a_tokenized_provisioni.Base.Hex.{hex_word, hex_char}
use a2a_tokenized_provisioni.Interfaces.Patterns.{is_hex, hex_pairs}

pub hex_char-is_hex : (d : ℕ) → d < 16 → is_hex (hex_char d) ≡ true
unfolding hex_char
hex_char-is_hex d h = ground (arith, h)

pub hex_pairs-append :
    (s t : Text) → hex_pairs s ≡ true → hex_pairs t ≡ true → hex_pairs (s ++ t) ≡ true
unfolding hex_pairs
hex_pairs-append [] t h k = k
hex_pairs-append (c ∷ []) t h k = absurd (cc)
hex_pairs-append (c ∷ d ∷ s) t h k = ground (arith, hex_pairs-append s t, h, k)

abbrev double : ℕ → ℕ
double zero = 0
double (suc k) = suc (suc (double k))

hex_word-pairs : (k n : ℕ) → hex_pairs (hex_word (double k) n) ≡ true
unfolding hex_word
hex_word-pairs zero n = unfold hex_pairs in refl
hex_word-pairs (suc k) n =
    let low = hex_char (n % 16) in
    let high = hex_char (n / 16 % 16) in
    let digits = hex_word (double k) (n / 16 / 16) in
    let last : hex_pairs (high ∷ low ∷ []) ≡ true =
      unfold hex_pairs in
      ground (
        arith,
        hex_char-is_hex (n % 16) (omega arith),
        hex_char-is_hex (n / 16 % 16) (omega arith),
      ) in
    rw (append_assoc digits (high ∷ []) (low ∷ []))
      (hex_pairs-append digits (high ∷ low ∷ []) (hex_word-pairs k (n / 16 / 16)) last)

-- A word of 64 digits is 32 pairs.
pub word-pairs : (n : ℕ) → hex_pairs (hex_word 64 n) ≡ true
word-pairs n = hex_word-pairs 32 n
