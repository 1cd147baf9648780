-- ===== src/Chainmcp/Purchase/Allowance.antt =====
-- client.py: what a purchase leaves of the allowance that it gave.
use a2a_tokenized_provisioni.Base.{
  ℕ, ◌+◌, ◌≡◌, ◌≢◌, refl, inl, inr, ◌⊎◌, Bool-cases, arith, ◌==◌, text_eq,
}
use a2a_tokenized_provisioni.Base.Decimal.{Text}
use a2a_tokenized_provisioni.Exec.{Exception, Result, ok, raised, chain_revert, value_error, after}
use a2a_tokenized_provisioni.Interfaces.{SignedOffer}
use a2a_tokenized_provisioni.Chainmcp.Purchase.Address.{SameText, lower-SameText, SameText-lower}
use a2a_tokenized_provisioni.Chainmcp.Purchase.{
  Transactions, lower, withdraw, try_fulfill, approve_and_fulfill, settled, after_withdrawal,
}

-- What ERC-20 documents of the client's allowance for the settlement: `approve` sets it, and a
-- purchase takes the price from it.
pub record Erc20 {W : Type 0} (tx : Transactions W) (allowance : W → ℕ) : Type 0 where
  pub approved : (amount : ℕ) (w v : W) → tx.approve amount w ≡ (ok tt, v) → allowance v ≡ amount
  pub taken :
      (signed : SignedOffer) (id : ℕ) (w v : W)
      → tx.fulfill signed w ≡ (ok id, v)
      → allowance v + signed.offer.price ≡ allowance w

module _ {W : Type 0} (tx : Transactions W) (allowance : W → ℕ) (erc20 : Erc20 tx allowance)
    (tok_address : Text) (signed : SignedOffer) where
  pub data Outcome (w : W) : Result ℕ → W → Type 0 where
    unapproved :
        (x : Exception) (v : W)
        → tx.approve signed.offer.price w ≡ (raised x, v)
        → Outcome w (raised x) v
    bought :
        (id : ℕ) (u v : W)
        → tx.approve signed.offer.price w ≡ (ok tt, u)
        → tx.fulfill signed u ≡ (ok id, v)
        → allowance v ≡ 0
        → Outcome w (ok id) v
    refused :
        (name : Text) (u t v : W)
        → tx.approve signed.offer.price w ≡ (ok tt, u)
        → tx.fulfill signed u ≡ (raised (chain_revert name), t)
        → tx.approve 0 t ≡ (ok tt, v)
        → allowance v ≡ 0
        → Outcome w (raised (chain_revert name)) v
    -- the withdrawal was refused too, or it raised what is no refusal, which replaces the refusal
    standing :
        (name : Text) (x y : Exception) (u t v : W)
        → tx.approve signed.offer.price w ≡ (ok tt, u)
        → tx.fulfill signed u ≡ (raised (chain_revert name), t)
        → tx.approve 0 t ≡ (raised x, v)
        → ((((other : Text) → x ≢ chain_revert other) × (y ≡ x))
            ⊎ ((other : Text) × (x ≡ chain_revert other) × (y ≡ chain_revert name)))
        → Outcome w (raised y) v
    broken :
        (x : Exception) (u v : W)
        → tx.approve signed.offer.price w ≡ (ok tt, u)
        → ((name : Text) → x ≢ chain_revert name)
        → tx.fulfill signed u ≡ (raised x, v)
        → Outcome w (raised x) v

  -- what a withdrawal that raises makes of the refusal
  abbrev Withdrawn : (name : Text) (x y : Exception) → Type 0
  Withdrawn name x y =
      (((other : Text) → x ≢ chain_revert other) × (y ≡ x))
      ⊎ ((other : Text) × (x ≡ chain_revert other) × (y ≡ chain_revert name))

  after_withdrawal-raised :
      (name : Text) (x : Exception)
      → (y : Exception) × (after_withdrawal tx name (raised x) ≡ raised y) × Withdrawn name x y
  after_withdrawal-raised name (chain_revert other) =
      (chain_revert name, refl, inr (other, refl, refl))
  after_withdrawal-raised name x = (x, refl, inl ((λ other p. cc), refl))

  module _ (w u : W) (approval : tx.approve signed.offer.price w ≡ (ok tt, u)) where
    withdraw_lem :
        (name : Text) (t : W)
        → tx.fulfill signed u ≡ (raised (chain_revert name), t)
        → (r : Result (Unit {0})) (v : W) → tx.approve 0 t ≡ (r, v)
        → Outcome w (after_withdrawal tx name r) v
    withdraw_lem name t f (ok done) v e = refused name u t v approval f e (erc20.approved 0 t v e)
    withdraw_lem name t f (raised x) v e =
        let (y, p, q) = after_withdrawal-raised name x in
        rw p (standing name x y u t v approval f e q)

    try_fulfill_lem :
        (r : Result ℕ) (v : W)
        → tx.fulfill signed u ≡ (r, v)
        → let (q, v') = settled tx r v in Outcome w q v'
    unfolding withdraw
    try_fulfill_lem (ok id) v e =
        bought id u v approval e (
          omega
            (arith, erc20.taken signed id u v e, erc20.approved signed.offer.price w u approval))
    try_fulfill_lem (raised (chain_revert name)) v e =
        withdraw_lem name v e (tx.approve 0 v).0 (tx.approve 0 v).1 refl
    try_fulfill_lem (raised x) v e = broken x u v approval (λ name p. cc) e

  approve_lem :
      (w : W) (r : Result (Unit {0})) (u : W)
      → tx.approve signed.offer.price w ≡ (r, u)
      → let (q, v) = after r (λ done. try_fulfill tx signed) u in Outcome w q v
  unfolding try_fulfill
  approve_lem w (ok done) u e =
      try_fulfill_lem w u e (tx.fulfill signed u).0 (tx.fulfill signed u).1 refl
  approve_lem w (raised x) u e = unapproved x u e

  -- A purchase of an offer in another token, compared with no regard to the case of letters, raises
  -- ValueError and changes nothing. Otherwise it approves exactly the price and then fulfils, each
  -- once, and returns the id of the fulfilment. If the contract refuses, it withdraws the approval
  -- and raises that refusal by its name, unless the withdrawal raises what is no refusal, which is
  -- raised instead; what else a transaction raises ends it. Where the token keeps what ERC-20
  -- documents, no allowance is left when the purchase returns, nor after a withdrawal that was
  -- mined.
  pub approve_and_fulfill_lem :
      (w : W)
      → let (r, v) = approve_and_fulfill tx tok_address signed w in
        ((¬ SameText signed.offer.payment_token tok_address) × (r ≡ raised value_error) × (v ≡ w))
        ⊎ (SameText signed.offer.payment_token tok_address × Outcome w r v)
  unfolding approve_and_fulfill
  approve_and_fulfill_lem w =
      let token = signed.offer.payment_token in
      elim (Bool-cases (lower token == lower tok_address)) [
        | inl same ↦
            let e : lower token ≡ lower tok_address =
              (text_eq.beq_iff (lower token) (lower tok_address)).0 same in
            rw same (
              inr (
                lower-SameText token tok_address e,
                approve_lem w (tx.approve signed.offer.price w).0
                    (tx.approve signed.offer.price w).1 refl,
              ))
        | inr other ↦
            let differs : ¬ SameText token tok_address = λ same.
              let yes =
                (text_eq.beq_iff (lower token) (lower tok_address)).1
                  (SameText-lower token tok_address same) in
              cc (yes, other) in
            rw other (inl (differs, refl, refl))
      ]
