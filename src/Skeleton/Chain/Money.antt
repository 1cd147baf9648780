-- ===== src/Skeleton/Chain/Money.antt =====
-- fakes.py: where the money of a purchase goes, and how a purchase ends.
use a2a_tokenized_provisioni.Base.{
  ℕ, ◌+◌, ◌-◌, ◌≤◌, ◌≡◌, ◌==◌, if◌then◌else◌, text_beq_iff, ◌⊎◌, inl, inr, none, some, [], ◌∷◌,
  arith, text_eq, nat_eq, Option-cases,
}
use a2a_tokenized_provisioni.Base.Decimal.{Text}
use a2a_tokenized_provisioni.Exec.{Exception, ok, raised, Result-cases}
use a2a_tokenized_provisioni.Dict
use a2a_tokenized_provisioni.Dict.{Dict, get-put, get-put}
use a2a_tokenized_provisioni.Interfaces.{Params, Offer, SignedOffer}
use a2a_tokenized_provisioni.Skeleton.Chain.{
  FakeChain, balance, pay, refusal, fulfill, settle, minted, decode_bandwidth_params,
}

-- the money that exists
abbrev pub total : Dict Text ℕ → ℕ
total [] = 0
total ((address, n) ∷ d) = n + total d

total-put :
    (d : Dict Text ℕ) (address : Text) (n : ℕ)
    → total (Dict.put d address n) + balance d address ≡ total d + n
unfolding Dict.put Dict.get balance
total-put [] address n = omega arith
total-put ((a, m) ∷ d) address n = ground (arith, total-put d address n)

pub total-pay :
    (buyer provider : Text) (price : ℕ) (d : Dict Text ℕ)
    → price ≤ balance d buyer
    → total (pay buyer provider price d) ≡ total d
unfolding pay
total-pay buyer provider price d h =
    let d' = Dict.put d buyer (balance d buyer - price) in
    omega (
      arith,
      h,
      total-put d buyer (balance d buyer - price),
      total-put d' provider (balance d' provider + price),
    )

balance-put :
    (d : Dict Text ℕ) (a b : Text) (n : ℕ)
    → balance (Dict.put d a n) b ≡ (if a == b then n else balance d b)
unfolding balance
balance-put d a b n = ground (arith, get-put d a b n)

-- What an account holds after a payment, and what it held.
pub balance-pay :
    (buyer provider account : Text) (price : ℕ) (d : Dict Text ℕ)
    → price ≤ balance d buyer
    → balance (pay buyer provider price d) account + (if buyer == account then price else 0)
      ≡ balance d account + (if provider == account then price else 0)
unfolding pay
balance-pay buyer provider account price d h =
    let d' = Dict.put d buyer (balance d buyer - price) in
    ground (
      arith,
      h,
      balance-put d' provider account (balance d' provider + price),
      balance-put d buyer account (balance d buyer - price),
      balance-put d buyer provider (balance d buyer - price),
      text_beq_iff buyer account,
      text_beq_iff provider account,
      text_beq_iff buyer provider,
    )

-- The state after a purchase whose params decode.
abbrev pub bought : Offer → (buyer : Text) → Params → FakeChain → FakeChain
bought offer buyer params c = record (settle offer buyer c) {
  entitlements = Dict.put c.entitlements c.next_id (minted offer c.next_id params);
}

-- The three ways in which `fulfill` ends.
abbrev pub Refused : SignedOffer → Text → FakeChain → Type 0
Refused signed buyer c =
    (x : Exception) × (refusal signed buyer c ≡ some x) × (fulfill signed buyer c ≡ (raised x, c))

abbrev pub Bought : SignedOffer → Text → FakeChain → Type 0
Bought signed buyer c =
    (params : Params) × (refusal signed buyer c ≡ none)
    × (decode_bandwidth_params signed.offer.params ≡ ok params)
    × (fulfill signed buyer c ≡ (ok c.next_id, bought signed.offer buyer params c))

abbrev pub Stranded : SignedOffer → Text → FakeChain → Type 0
Stranded signed buyer c =
    (x : Exception) × (refusal signed buyer c ≡ none)
    × (decode_bandwidth_params signed.offer.params ≡ raised x)
    × (fulfill signed buyer c ≡ (raised x, settle signed.offer buyer c))

pub fulfill-cases :
    (signed : SignedOffer) (buyer : Text) (c : FakeChain)
    → Refused signed buyer c ⊎ (Bought signed buyer c ⊎ Stranded signed buyer c)
unfolding fulfill
fulfill-cases signed buyer c = elim (Option-cases (refusal signed buyer c)) [
  | inl e ↦ elim (Result-cases (decode_bandwidth_params signed.offer.params)) [
    | inl (params, p) ↦ inr (inl (params, e, p, rw (e, p)))
    | inr (x, p) ↦ inr (inr (x, e, p, rw (e, p)))
  ]
  | inr (x, e) ↦ inl (x, e, rw e)
]
