-- ===== src/Chainmcp/Purchase/Address.antt =====
-- client.py: the comparison of two addresses, whose letters may be of either case.
use a2a_tokenized_provisioni.Base.{
  ℕ, ◌+◌, ◌≤◌, ◌≡◌, refl, ap, ◌⊎◌, inl, inr, [], ◌∷◌, ◌&&◌, arith, leb, if◌then◌else◌,
}
use a2a_tokenized_provisioni.Base.Decimal.{Text}
use a2a_tokenized_provisioni.Chainmcp.Purchase.{lower}

-- `d` is the small letter of the capital `c`
abbrev pub Small : (c d : ℕ) → Type 0
Small c d = (65 ≤ c) × (c ≤ 90) × (d ≡ c + 32)

-- The same text but for the case of its letters.
pub data SameText : Text → Text → Type 0 where
  no_letter : SameText [] []
  a_letter :
      (c d : ℕ) (s t : Text)
      → (c ≡ d) ⊎ (Small c d ⊎ Small d c)
      → SameText s t
      → SameText (c ∷ s) (d ∷ t)

abbrev lowered : ℕ → ℕ
lowered c = if leb 65 c && leb c 90 then c + 32 else c

lowered-same : (c d : ℕ) → lowered c ≡ lowered d → (c ≡ d) ⊎ (Small c d ⊎ Small d c)
lowered-same c d h = ground (arith, h)

same-lowered : (c d : ℕ) → (c ≡ d) ⊎ (Small c d ⊎ Small d c) → lowered c ≡ lowered d
same-lowered c d (inl e) = ap (λ x. lowered x) e
same-lowered c d (inr (inl (a, b, e))) = ground (arith, a, b, e)
same-lowered c d (inr (inr (a, b, e))) = ground (arith, a, b, e)

pub lower-SameText : (s t : Text) → lower s ≡ lower t → SameText s t
unfolding lower
lower-SameText [] [] h = no_letter
lower-SameText [] (d ∷ t) h = absurd (cc)
lower-SameText (c ∷ s) [] h = absurd (cc)
lower-SameText (c ∷ s) (d ∷ t) h =
    a_letter c d s t (lowered-same c d (cc)) (lower-SameText s t (cc))

pub SameText-lower : (s t : Text) → SameText s t → lower s ≡ lower t
unfolding lower
SameText-lower s t no_letter = refl
SameText-lower s t (a_letter c d u v e same) = rw (same-lowered c d e, SameText-lower u v same) refl
