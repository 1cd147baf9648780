-- ===== src/Skeleton/Chain/Uses.antt =====
-- fakes.py: an offer is used once, and the chain is a reader for the controller.
use a2a_tokenized_provisioni.Base.{
  ℕ, ◌≡◌, inl, inr, arith, text_eq, nat_eq, Option-cases, elem, sym, ◌∙◌, ap,
}
use a2a_tokenized_provisioni.Base.Decimal.{Text}
use a2a_tokenized_provisioni.Exec.{Exception, Result, ok, raised}
use a2a_tokenized_provisioni.Dict
use a2a_tokenized_provisioni.Dict.{Dict, get-nil, get-put_self, get-put_ne, put-cases}
use a2a_tokenized_provisioni.Interfaces.{SignedOffer, EntitlementView}
use a2a_tokenized_provisioni.Interfaces.Ports.{EntitlementReader}
use a2a_tokenized_provisioni.Skeleton.Chain.{FakeChain, fulfill, get_entitlement, owner_of, found}
use a2a_tokenized_provisioni.Skeleton.Chain.Rules.{fulfill_lem}
use a2a_tokenized_provisioni.Skeleton.Chain.History.{
  IsSound, Run, by_fulfill, Step-Extends, Run-Extends,
}

raised_ok : {A : Type 0} {x : Exception} {a : A} → ¬ (◌≡◌ {A = Result A} (raised x) (ok a))
raised_ok e = ground (arith, e)

-- An offer is used once: after a purchase that returned, and any run from there, `fulfill` of an
-- offer with the same salt raises and changes nothing, for every buyer.
pub fulfill-single_use :
    (signed again : SignedOffer) (buyer other : Text) (id : ℕ) (c d : FakeChain)
    → IsSound c
    → (fulfill signed buyer c).0 ≡ ok id
    → Run (fulfill signed buyer c).1 d
    → again.offer.salt ≡ signed.offer.salt
    → (x : Exception) × (fulfill again other d ≡ (raised x, d))
fulfill-single_use signed again buyer other id c d s e run same =
    elim (fulfill_lem signed buyer c) [
      | inl (u, x, f) ↦ absurd (raised_ok (sym (ap (λ r. r.0) f) ∙ e))
      | inr (u, paid, t) ↦
          let after = (Step-Extends (by_fulfill signed buyer) s).sound in
          let spent = (Run-Extends run after).salts signed.offer.salt paid.spent in
          elim (fulfill_lem again other d) [
            | inl (v, x, f) ↦ (x, f)
            | inr (v, p, t) ↦
                absurd
                  (ground (arith, sym (ap (λ salt. elem salt d.consumed) same) ∙ v.fresh, spent))
          ]
    ]

pub get_entitlement-named :
    (c : FakeChain)
    → IsSound c
    → (i : ℕ) (v : EntitlementView) → get_entitlement c i ≡ ok v
    → v.id ≡ i
unfolding get_entitlement found
get_entitlement-named c s i v h = elim (Option-cases (Dict.get c.entitlements i)) [
  | inl e ↦ absurd (raised_ok (rw e at h))
  | inr (w, e) ↦ let q : w ≡ v = cc in ap (λ (z : EntitlementView). z.id) (sym q) ∙ s.named i w e
]

-- the chain as the controller's port; the clock is the chain's
abbrev pub reader : (c : FakeChain) → IsSound c → EntitlementReader
reader c s = record {
  owner_of = owner_of c;
  get = get_entitlement c;
  chain_time = ok c.now;
  get_id = get_entitlement-named c s;
}
