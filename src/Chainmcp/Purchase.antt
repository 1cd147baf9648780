-- ===== src/Chainmcp/Purchase.antt =====
-- chainmcp/src/chainmcp/client.py: `approve_and_fulfill`, over a chain `W` that its transactions
-- change. A transaction raises ChainRevert with a name, or what web3 raises. The hash of the
-- transaction is left out of the result.
pub mod Address
pub mod Allowance
use a2a_tokenized_provisioni.Base.{
  ℕ, ◌+◌, not, List, [], ◌∷◌, ◌==◌, ◌&&◌, map, leb, if◌then◌else◌, text_eq,
}
use a2a_tokenized_provisioni.Base.Decimal.{Text}
use a2a_tokenized_provisioni.Exec.{
  Exec, Exception, Result, ok, raised, chain_revert, value_error, pure, raise, ◌>>=◌, ◌>>◌,
}
use a2a_tokenized_provisioni.Interfaces.{SignedOffer}

-- the two transactions of a purchase
pub record Transactions (W : Type 0) : Type 0 where
  pub approve : (amount : ℕ) → Exec W (Unit {0})
  pub fulfill : SignedOffer → Exec W ℕ

-- `text.lower()` of a hexadecimal address
unfoldable pub lower : Text → Text
lower text = map (λ c. if leb 65 c && leb c 90 then c + 32 else c) text

module _ {W : Type 0} (tx : Transactions W) where
  -- the inner `try` of the `except ChainRevert`, and the `raise` after it
  abbrev pub after_withdrawal : (name : Text) → Result (Unit {0}) → Result ℕ
  after_withdrawal name (ok done) = raised (chain_revert name)
  after_withdrawal name (raised (chain_revert other)) = raised (chain_revert name)
  after_withdrawal name (raised x) = raised x

  unfoldable pub withdraw : (name : Text) → Exec W ℕ
  withdraw name w = let (r, w') = tx.approve 0 w in (after_withdrawal name r, w')

  -- `except ChainRevert`
  abbrev pub settled : Result ℕ → Exec W ℕ
  settled (ok id) = pure id
  settled (raised (chain_revert name)) = withdraw name
  settled (raised x) = raise x

  unfoldable pub try_fulfill : SignedOffer → Exec W ℕ
  unfolding withdraw
  try_fulfill signed w = let (r, w') = tx.fulfill signed w in settled r w'

  unfoldable pub approve_and_fulfill : (tok_address : Text) → SignedOffer → Exec W ℕ
  unfolding lower try_fulfill
  approve_and_fulfill tok_address signed =
      if not (lower signed.offer.payment_token == lower tok_address)
      then raise value_error
      else (do tx.approve signed.offer.price; try_fulfill signed)
