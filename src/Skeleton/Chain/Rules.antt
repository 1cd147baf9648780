-- ===== src/Skeleton/Chain/Rules.antt =====
-- fakes.py: `FakeChain.fulfill` against the conditions that its docstring lists.
use a2a_tokenized_provisioni.Base.{
  ℕ, ◌+◌, ◌==◌, if◌then◌else◌, ◌≤◌, ◌≡◌, refl, ◌↔◌, ◌⊎◌, inl, inr, none, true, false, arith,
  text_eq, nat_eq, elem, drop, nat_beq_iff, text_beq_iff,
}
use a2a_tokenized_provisioni.Base.Decimal.{Text}
use a2a_tokenized_provisioni.Base.Hex.{hex_from}
use a2a_tokenized_provisioni.Exec.{Exception, Result, ok, raised}
use a2a_tokenized_provisioni.Dict.{get-put_self}
use a2a_tokenized_provisioni.Interfaces.{Params, SignedOffer}
use a2a_tokenized_provisioni.Skeleton.Chain.{
  FakeChain, balance, refusal, fulfill, settle, minted, decode_bandwidth_params, bound_elsewhere,
  get_entitlement, owner_of,
}
use a2a_tokenized_provisioni.Skeleton.Chain.Money.{total, total-pay, balance-pay, fulfill-cases}

-- The buyer may use the offer now: the conditions of the docstring, in words of numbers.
pub record Usable (signed : SignedOffer) (buyer : Text) (c : FakeChain) : Type 0 where
  pub bandwidth : signed.offer.service_type ≡ 0
  pub timely : c.now ≤ signed.offer.valid_until
  pub unbound : (hex_from 0 (drop 2 signed.offer.consumer) ≡ 0) ⊎ (signed.offer.consumer ≡ buyer)
  pub fresh : elem signed.offer.salt c.consumed ≡ false
  pub funded : signed.offer.price ≤ balance c.balances buyer

pub refusal-none_iff :
    (signed : SignedOffer) (buyer : Text) (c : FakeChain)
    → (refusal signed buyer c ≡ none) ↔ Usable signed buyer c
unfolding refusal bound_elsewhere
refusal-none_iff signed buyer c = (
  λ h. record {
    bandwidth = ground (arith, nat_beq_iff signed.offer.service_type 0);
    timely = ground arith;
    unbound = ground (
      arith,
      nat_beq_iff (hex_from 0 (drop 2 signed.offer.consumer)) 0,
      text_beq_iff signed.offer.consumer buyer,
    );
    fresh = ground arith;
    funded = ground arith;
  },
  λ u. ground (
    arith,
    u.bandwidth,
    u.timely,
    u.unbound,
    u.fresh,
    u.funded,
    nat_beq_iff signed.offer.service_type 0,
    nat_beq_iff (hex_from 0 (drop 2 signed.offer.consumer)) 0,
    text_beq_iff signed.offer.consumer buyer,
  ),
)

-- What a purchase does to the chain besides its new token.
pub record Paid (signed : SignedOffer) (buyer : Text) (c d : FakeChain) : Type 0 where
  pub conserved : total d.balances ≡ total c.balances
  -- every account, the buyer's and the provider's among them
  pub moved :
      (account : Text)
      → balance d.balances account + (if buyer == account then signed.offer.price else 0)
        ≡ balance c.balances account
          + (if signed.offer.provider == account then signed.offer.price else 0)
  pub spent : elem signed.offer.salt d.consumed ≡ true
  pub next : d.next_id ≡ c.next_id + 1
  pub owned : owner_of d c.next_id ≡ ok buyer

pub settle-Paid :
    (signed : SignedOffer) (buyer : Text) (c : FakeChain)
    → Usable signed buyer c
    → Paid signed buyer c (settle signed.offer buyer c)
unfolding owner_of
settle-Paid signed buyer c u = record {
  conserved = total-pay buyer signed.offer.provider signed.offer.price c.balances u.funded;
  moved = λ account.
      balance-pay buyer signed.offer.provider account signed.offer.price c.balances u.funded;
  spent = ground (arith, text_beq_iff signed.offer.salt signed.offer.salt);
  next = refl;
  owned = rw (get-put_self c.owners c.next_id buyer);
}

-- The two ends of a purchase that was paid for: the params decode and the token has the offer's
-- terms, or they do not, the decoder's exception is raised and there is no token.
abbrev pub Tokened : SignedOffer → (id : ℕ) → Result ℕ × FakeChain → FakeChain → Type 0
Tokened signed id (r, d) c =
    ((params : Params) × (decode_bandwidth_params signed.offer.params ≡ ok params)
      × (r ≡ ok id)
      × (get_entitlement d id ≡ ok (minted signed.offer id params)))
    ⊎ ((x : Exception) × (decode_bandwidth_params signed.offer.params ≡ raised x)
        × (r ≡ raised x)
        × (d.entitlements ≡ c.entitlements))

-- `fulfill` for each offer, buyer and chain: without the conditions it raises and changes nothing;
-- with them it moves exactly the price, spends the salt and numbers a token for the buyer, and
-- then either stores the token with the offer's terms and returns its number, or, when the params
-- do not decode, raises with the price taken and no token stored.
pub fulfill_lem :
    (signed : SignedOffer) (buyer : Text) (c : FakeChain)
    → (¬ Usable signed buyer c × (x : Exception) × (fulfill signed buyer c ≡ (raised x, c)))
      ⊎ (Usable signed buyer c
          × Paid signed buyer c (fulfill signed buyer c).1
          × Tokened signed c.next_id (fulfill signed buyer c) c)
unfolding get_entitlement owner_of
fulfill_lem signed buyer c = elim (fulfill-cases signed buyer c) [
  | inl (x, e, f) ↦
      inl (λ u. let h = (refusal-none_iff signed buyer c).1 u in ground (arith, h, e), x, f)
  | inr (inl (params, e, p, f)) ↦
      let u = (refusal-none_iff signed buyer c).0 e in
      let paid = settle-Paid signed buyer c u in
      inr (
        u,
        rw f (record {
          conserved = paid.conserved;
          moved = paid.moved;
          spent = paid.spent;
          next = refl;
          owned = paid.owned;
        }),
        rw f (
            inl (
              params,
              p,
              refl,
              rw (get-put_self c.entitlements c.next_id (minted signed.offer c.next_id params)),
            )),
      )
  | inr (inr (x, e, p, f)) ↦
      let u = (refusal-none_iff signed buyer c).0 e in
      inr (u, rw f (settle-Paid signed buyer c u), rw f (inr (x, p, refl, refl)))
]
