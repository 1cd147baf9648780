-- ===== src/Controller/ResourceMap/Keys.antt =====
-- resource_map.py: the texts that write a key's bytes.
use a2a_tokenized_provisioni.Base.{
  ℕ, ◌≡◌, refl, sym, ◌∙◌, ◌+◌, ◌*◌, ◌==◌, ◌&&◌, ◌⊎◌, true, false, [], ◌∷◌, inl, inr, arith,
  Bool-cases, text_eq, nat_eq,
}
use a2a_tokenized_provisioni.Base.Decimal.{Text}
use a2a_tokenized_provisioni.Base.Hex.{hex_digit}
use a2a_tokenized_provisioni.Exec.{Exception, ok, raised, raised-ne-ok, value_error, Result-cases}
use a2a_tokenized_provisioni.Interfaces.{Bytes}
use a2a_tokenized_provisioni.Interfaces.Patterns.{is_hex}
use a2a_tokenized_provisioni.Controller.ResourceMap.{is_space, fromhex, remove_0x}

-- A text that writes bytes: two hexadecimal digits for each, with white space before a byte and at
-- the end.
pub data Writes : Text → Bytes → Type 0 where
  no_more : Writes [] []
  space :
      (c : ℕ) (s : Text) (bytes : Bytes) → is_space c ≡ true → Writes s bytes → Writes (c ∷ s) bytes
  byte :
      (c d : ℕ) (s : Text) (bytes : Bytes)
      → is_hex c ≡ true
      → is_hex d ≡ true
      → Writes s bytes
      → Writes (c ∷ d ∷ s) ((hex_digit c * 16 + hex_digit d) ∷ bytes)

-- The text of a key, with or without 0x before it.
abbrev pub Key : Text → Bytes → Type 0
Key text bytes =
    Writes text bytes ⊎ ((rest : Text) × (text ≡ b'0' ∷ b'x' ∷ rest) × Writes rest bytes)

no_x : (c d : ℕ) (s : Text) (bytes : Bytes) → c ≡ b'0' → d ≡ b'x' → Writes (c ∷ d ∷ s) bytes → ⊥
no_x c d s bytes zero_first x_next (space _ _ _ blank w) =
    let off : is_space c ≡ false = rw zero_first refl in cc
no_x c d s bytes zero_first x_next (byte _ _ _ rest hc hd w) =
    let off : is_hex d ≡ false = rw x_next refl in cc

pub Key-remove_0x : (text : Text) (bytes : Bytes) → Writes (remove_0x text) bytes → Key text bytes
unfolding remove_0x
Key-remove_0x [] bytes w = inl w
Key-remove_0x (c ∷ []) bytes w = inl w
Key-remove_0x (c ∷ d ∷ s) bytes w = elim (Bool-cases (c == b'0' && d == b'x')) [
  | inl on ↦
      let e : c ≡ b'0' = ground (arith, on) in
      let f : d ≡ b'x' = ground (arith, on) in inr (s, rw (e, f) refl, rw on at w)
  | inr off ↦ inl (rw off at w)
]

pub remove_0x-Key : (text : Text) (bytes : Bytes) → Key text bytes → Writes (remove_0x text) bytes
unfolding remove_0x
remove_0x-Key text bytes (inr (rest, e, w)) = rw e w
remove_0x-Key [] bytes (inl w) = w
remove_0x-Key (c ∷ []) bytes (inl w) = w
remove_0x-Key (c ∷ d ∷ s) bytes (inl w) = elim (Bool-cases (c == b'0' && d == b'x')) [
  | inl on ↦ absurd (no_x c d s bytes (ground (arith, on)) (ground (arith, on)) w)
  | inr off ↦ rw off w
]

pub fromhex-Writes : (s : Text) (bytes : Bytes) → fromhex s ≡ ok bytes → Writes s bytes
unfolding fromhex
fromhex-Writes [] bytes h = let e : bytes ≡ [] = cc in rw e no_more
fromhex-Writes (c ∷ []) bytes h = elim (Bool-cases (is_space c)) [
  | inl blank ↦
      let same : ok [] ≡ ok bytes = rw blank at h in
      let e : bytes ≡ [] = cc in rw e (space c [] [] blank no_more)
  | inr solid ↦ absurd (raised-ne-ok (rw solid at h))
]
fromhex-Writes (c ∷ d ∷ s) bytes h = elim (Bool-cases (is_space c)) [
  | inl blank ↦ space c (d ∷ s) bytes blank (fromhex-Writes (d ∷ s) bytes (rw blank at h))
  | inr solid ↦ elim (Bool-cases (is_hex c && is_hex d)) [
    | inr bad ↦ absurd (raised-ne-ok (rw (solid, bad) at h))
    | inl good ↦ elim (Result-cases (fromhex s)) [
      | inr (x, e) ↦ absurd (raised-ne-ok (rw (solid, good, e) at h))
      | inl (rest, e) ↦
          let same : ok ((hex_digit c * 16 + hex_digit d) ∷ rest) ≡ ok bytes =
            rw (solid, good, e) at h in
          let f : bytes ≡ (hex_digit c * 16 + hex_digit d) ∷ rest = cc in
          rw f (
            byte c d s rest (ground (arith, good)) (ground (arith, good)) (fromhex-Writes s rest e))
    ]
  ]
]

solid : (c : ℕ) → is_hex c ≡ true → is_space c ≡ false
solid c h = ground (arith, h)

pub Writes-fromhex : (s : Text) (bytes : Bytes) → Writes s bytes → fromhex s ≡ ok bytes
unfolding fromhex
Writes-fromhex s bytes no_more = refl
Writes-fromhex s bytes (space c [] rest blank w) = rw blank (Writes-fromhex [] rest w)
Writes-fromhex s bytes (space c (d ∷ t) rest blank w) = rw blank (Writes-fromhex (d ∷ t) rest w)
Writes-fromhex s bytes (byte c d t rest hc hd w) =
    rw (solid c hc, hc, hd, Writes-fromhex t rest w) refl

pub fromhex-raised : (s : Text) (x : Exception) → fromhex s ≡ raised x → x ≡ value_error
unfolding fromhex
fromhex-raised [] x h = absurd (raised-ne-ok (sym h))
fromhex-raised (c ∷ []) x h = elim (Bool-cases (is_space c)) [
  | inl blank ↦ absurd (raised-ne-ok (sym (rw blank at h)))
  | inr other ↦ cc (rw other at h)
]
fromhex-raised (c ∷ d ∷ s) x h = elim (Bool-cases (is_space c)) [
  | inl blank ↦ fromhex-raised (d ∷ s) x (rw blank at h)
  | inr other ↦ elim (Bool-cases (is_hex c && is_hex d)) [
    | inr bad ↦ cc (rw (other, bad) at h)
    | inl good ↦ elim (Result-cases (fromhex s)) [
      | inl (rest, e) ↦ absurd (raised-ne-ok (sym (rw (other, good, e) at h)))
      | inr (y, e) ↦
          let same : raised y ≡ raised x = rw (other, good, e) at h in
          let f : y ≡ x = cc in sym f ∙ fromhex-raised s y e
    ]
  ]
]
