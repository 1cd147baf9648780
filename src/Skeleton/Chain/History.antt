-- ===== src/Skeleton/Chain/History.antt =====
-- fakes.py: chains as any run of purchases, revocations and passing time leaves them.
use a2a_tokenized_provisioni.Base.{
  ℕ, ◌≡◌, ◌<◌, refl, ◌⊎◌, inl, inr, Option, none, some, [], true, arith, text_eq, nat_eq,
  Bool-cases, nat_beq, nat_beq_iff, Option-cases, elem, sym, ◌∙◌, ap,
}
use a2a_tokenized_provisioni.Base.Decimal.{Text}
use a2a_tokenized_provisioni.Exec.{ok, raised, key_error}
use a2a_tokenized_provisioni.Dict
use a2a_tokenized_provisioni.Dict.{Dict, get-nil, get-put_self, get-put_ne, put-cases}
use a2a_tokenized_provisioni.Interfaces.{Params, SignedOffer, EntitlementView}
use a2a_tokenized_provisioni.Skeleton.Chain.{
  FakeChain, refusal, fulfill, settle, minted, revoke, advance, get_entitlement, found,
}
use a2a_tokenized_provisioni.Skeleton.Chain.Money.{total, total-pay, bought, fulfill-cases}
use a2a_tokenized_provisioni.Skeleton.Chain.Rules.{refusal-none_iff}

pub record IsSound (c : FakeChain) : Type 0 where
  pub named : (i : ℕ) (v : EntitlementView) → Dict.get c.entitlements i ≡ some v → v.id ≡ i
  pub numbered : (i : ℕ) (v : EntitlementView) → Dict.get c.entitlements i ≡ some v → i < c.next_id

-- a new chain, with money and a clock
abbrev pub genesis : (now next_id : ℕ) → Dict Text ℕ → FakeChain
genesis now next_id balances = record {
  now = now;
  balances = balances;
  next_id = next_id;
  consumed = [];
  owners = [];
  entitlements = [];
}

pub data Step : FakeChain → FakeChain → Type 0 where
  by_fulfill :
      {c : FakeChain} (signed : SignedOffer) (buyer : Text) → Step c (fulfill signed buyer c).1
  by_revoke : {c : FakeChain} (id : ℕ) → Step c (revoke id c).1
  by_advance : {c : FakeChain} (seconds : ℕ) → Step c (advance seconds c).1

pub data Run (c : FakeChain) : FakeChain → Type 0 where
  start : Run c c
  then_ : {d e : FakeChain} → Run c d → Step d e → Run c e

-- What no step undoes: a salt stays spent, money is conserved, and a token keeps its terms.
pub record Extends (c d : FakeChain) : Type 0 where
  pub sound : IsSound d
  pub salts : (salt : Text) → elem salt c.consumed ≡ true → elem salt d.consumed ≡ true
  pub money : total d.balances ≡ total c.balances
  pub terms :
      (i : ℕ) (v : EntitlementView)
      → Dict.get c.entitlements i ≡ some v
      → (Dict.get d.entitlements i ≡ some v)
        ⊎ (Dict.get d.entitlements i ≡ some (record v { revoked = true }))

pub revoke-cases :
    (c : FakeChain) (id : ℕ)
    → ((Dict.get c.entitlements id ≡ none) × (revoke id c ≡ (raised key_error, c)))
      ⊎ ((v : EntitlementView) × (Dict.get c.entitlements id ≡ some v)
          × (revoke id c ≡ (
            ok tt,
            record c { entitlements = Dict.put c.entitlements id (record v { revoked = true }) },
          )))
unfolding revoke get_entitlement found
revoke-cases c id = elim (Option-cases (Dict.get c.entitlements id)) [
  | inl e ↦ inl (e, rw e refl)
  | inr (v, e) ↦ inr (v, e, rw e refl)
]

IsSound-put :
    (c d : FakeChain) (i : ℕ) (v : EntitlementView)
    → IsSound c
    → d.entitlements ≡ Dict.put c.entitlements i v
    → v.id ≡ i
    → i < d.next_id
    → ((j : ℕ) → j < c.next_id → j < d.next_id)
    → IsSound d
IsSound-put c d i v s e named lt grows = record {
  named = λ j w h. elim (put-cases c.entitlements i j v w (rw e at h)) [
    | inl (p, q) ↦ sym (ap (λ (z : EntitlementView). z.id) q) ∙ named ∙ p
    | inr (p, q) ↦ s.named j w q
  ];
  numbered = λ j w h. elim (put-cases c.entitlements i j v w (rw e at h)) [
    | inl (p, q) ↦ ground (arith, lt)
    | inr (p, q) ↦ grows j (s.numbered j w q)
  ];
}

Extends-same : (c : FakeChain) → IsSound c → Extends c c
Extends-same c s = record { sound = s; salts = λ salt h. h; money = refl; terms = λ i v h. inl h }

Extends-settle :
    (signed : SignedOffer) (buyer : Text) (c : FakeChain)
    → refusal signed buyer c ≡ none
    → IsSound c
    → Extends c (settle signed.offer buyer c)
Extends-settle signed buyer c e s = record {
  sound = record {
    named = s.named;
    numbered = λ j w h. let lt = s.numbered j w h in omega (arith, lt);
  };
  salts = λ salt h. ground (arith, h);
  money =
      let u = (refusal-none_iff signed buyer c).0 e in
      total-pay buyer signed.offer.provider signed.offer.price c.balances u.funded;
  terms = λ i v h. inl h;
}

Extends-bought :
    (signed : SignedOffer) (buyer : Text) (params : Params) (c : FakeChain)
    → refusal signed buyer c ≡ none
    → IsSound c
    → Extends c (bought signed.offer buyer params c)
Extends-bought signed buyer params c e s =
    let before = Extends-settle signed buyer c e s in
    let v = minted signed.offer c.next_id params in
    record {
      sound =
          IsSound-put c (bought signed.offer buyer params c) c.next_id v s refl refl (omega arith)
            (λ j lt. omega (arith, lt));
      salts = before.salts;
      money = before.money;
      terms = λ i w h. inl (
          get-put_ne c.entitlements c.next_id i v
            (λ p. let lt = s.numbered i w h in omega (arith, lt, p))
          ∙ h);
    }

abbrev marked : Option EntitlementView → Option EntitlementView
marked none = none
marked (some v) = some (record v { revoked = true })

Extends-revoked :
    (c : FakeChain) (id : ℕ) (v : EntitlementView)
    → Dict.get c.entitlements id ≡ some v
    → IsSound c
    → Extends c
        (record c { entitlements = Dict.put c.entitlements id (record v { revoked = true }) })
Extends-revoked c id v e s =
    let w : EntitlementView = record v { revoked = true } in
    record {
      sound =
          IsSound-put c (record c { entitlements = Dict.put c.entitlements id w }) id w s refl
            (s.named id v e) (s.numbered id v e) (λ j lt. lt);
      salts = λ salt h. h;
      money = refl;
      terms = λ i u h. elim (Bool-cases (nat_beq id i)) [
        | inl same ↦
            let p = (nat_beq_iff id i).0 same in
            inr (
              ap (λ j. Dict.get (Dict.put c.entitlements id w) j) (sym p)
              ∙ get-put_self c.entitlements id w
              ∙ ap marked (sym e ∙ ap (λ j. Dict.get c.entitlements j) p ∙ h))
        | inr other ↦
            inl (
              get-put_ne c.entitlements id i w (λ p. ground (arith, nat_beq_iff id i, other, p))
              ∙ h)
      ];
    }

pub Step-Extends : {c d : FakeChain} → Step c d → IsSound c → Extends c d
unfolding advance
Step-Extends {c} (by_advance seconds) s = record {
  sound = record { named = s.named; numbered = s.numbered };
  salts = λ salt h. h;
  money = refl;
  terms = λ i v h. inl h;
}
Step-Extends {c} (by_revoke id) s = elim (revoke-cases c id) [
  | inl (e, f) ↦ rw f (Extends-same c s)
  | inr (v, e, f) ↦ rw f (Extends-revoked c id v e s)
]
Step-Extends {c} (by_fulfill signed buyer) s = elim (fulfill-cases signed buyer c) [
  | inl (x, e, f) ↦ rw f (Extends-same c s)
  | inr (inl (params, e, p, f)) ↦ rw f (Extends-bought signed buyer params c e s)
  | inr (inr (x, e, p, f)) ↦ rw f (Extends-settle signed buyer c e s)
]

Extends-trans : (c d e : FakeChain) → Extends c d → Extends d e → Extends c e
Extends-trans c d e x y = record {
  sound = y.sound;
  salts = λ salt h. y.salts salt (x.salts salt h);
  money = y.money ∙ x.money;
  terms = λ i v h. elim (x.terms i v h) [
    | inl p ↦ y.terms i v p
    | inr p ↦ elim (y.terms i (record v { revoked = true }) p) [ inl q ↦ inr q | inr q ↦ inr q ]
  ];
}

-- After any run from a sound chain, money is conserved, every spent salt is spent still, and every
-- token still has its number and its terms, except that it may have been revoked.
pub Run-Extends : {c d : FakeChain} → Run c d → IsSound c → Extends c d
Run-Extends {c} start s = Extends-same c s
Run-Extends {c} {d} (then_ {d = e} before step) s =
    let x = Run-Extends before s in Extends-trans c e d x (Step-Extends step x.sound)

pub genesis-IsSound :
    (now next_id : ℕ) (balances : Dict Text ℕ) → IsSound (genesis now next_id balances)
unfolding Dict.get
genesis-IsSound now next_id balances = record {
  named = λ i v h. ground (arith, h);
  numbered = λ i v h. ground (arith, h);
}
