-- ===== src/Chainmcp/Reverts.antt =====
-- chainmcp/src/chainmcp/artifacts.py and client.py: the table of error selectors, the name of a
-- revert, and the calls and transactions that raise under it. keccak and web3 are parameters. An ABI
-- is the list of its entries, of which only errors matter.
pub mod Names
use a2a_tokenized_provisioni.Base.{
  ℕ, Bool, Option, none, some, List, [], ◌∷◌, ◌++◌, ◌==◌, ◌&&◌, leb, length, take, drop,
  if◌then◌else◌, starts_with, nat_eq, text_eq,
}
use a2a_tokenized_provisioni.Base.Decimal.{Text, codes}
use a2a_tokenized_provisioni.Exec.{
  Exec, Result, ok, raised, and_then, key_error, library_error, chain_revert,
}
use a2a_tokenized_provisioni.Dict
use a2a_tokenized_provisioni.Dict.{Dict}
use a2a_tokenized_provisioni.Interfaces.{Bytes}
use a2a_tokenized_provisioni.Controller.ResourceMap.{fromhex}
use a2a_tokenized_provisioni.Chainmcp.Client.{nonexistent}

pub data AbiEntry : Type 0 where
  error : (name : Text) (inputs : List Text) → AbiEntry
  other : AbiEntry

-- `",".join(...)`
unfoldable pub commas : List Text → Text
commas [] = []
commas (t ∷ []) = t
commas (t ∷ u ∷ types) = t ++ b',' ∷ commas (u ∷ types)

abbrev pub signature : (name : Text) (inputs : List Text) → Text
signature name inputs = name ++ b'(' ∷ (commas inputs ++ b')' ∷ [])

module _ (keccak : Text → Bytes) where
  abbrev pub selector : (name : Text) (inputs : List Text) → Bytes
  selector name inputs = take 4 (keccak (signature name inputs))

  -- the inner loop, from a table that has been filled so far
  unfoldable pub add_errors : List AbiEntry → Dict Bytes Text → Dict Bytes Text
  add_errors [] table = table
  add_errors (error name inputs ∷ abi) table =
      add_errors abi (Dict.put table (selector name inputs) name)
  add_errors (other ∷ abi) table = add_errors abi table

  unfoldable pub add_abis : List (List AbiEntry) → Dict Bytes Text → Dict Bytes Text
  unfolding add_errors
  add_abis [] table = table
  add_abis (abi ∷ abis) table = add_abis abis (add_errors abi table)

  unfoldable pub error_selectors : List (List AbiEntry) → Dict Bytes Text
  unfolding add_abis
  error_selectors abis = add_abis abis []

-- `ContractLogicError`: its data, where that is a text, and `str(err)`
pub record LogicError : Type 0 where
  pub revert_data : Option Text
  pub message : Text

-- `err.data if isinstance(err.data, str) else ""`
abbrev pub data_of : Option Text → Text
data_of none = []
data_of (some text) = text

-- `data.startswith("0x") and len(data) >= 10`
unfoldable pub has_selector : Text → Bool
has_selector text = starts_with (codes "0x") text && leb 10 (length text)

-- `.get(selector, data[:10])`
abbrev pub name_or : Option Text → Text → Text
name_or none short = short
name_or (some name) short = name

-- a call of web3 that raises such an error, or anything else
pub data Raw {ℓ} (A : Type ℓ) : Type ℓ where
  returns : A → Raw A
  reverts : LogicError → Raw A
  fails : Raw A

pub record Receipt : Type 0 where
  pub status : ℕ
  pub transaction_hash : Text

-- a transaction on the chain, up to its receipt
abbrev pub Transaction : Type 0 → Type 0
Transaction W = W → Raw Receipt × W

-- `to or self.address`
abbrev pub or_self : Option Text → Text → Text
or_self none address = address
or_self (some []) address = address
or_self (some (c ∷ to)) address = c ∷ to

module _ (errors : Dict Bytes Text) where
  -- `_revert_name`
  unfoldable pub revert_name : LogicError → Result Text
  unfolding fromhex has_selector
  revert_name err =
      let text = data_of err.revert_data in
      if has_selector text
      then (and_then (fromhex (take 8 (drop 2 text)))
          λ selector. ok (name_or (Dict.get errors selector) (take 10 text)))
      else ok err.message

  -- `raise self._as_chain_revert(err)`
  unfoldable pub as_chain_revert {ℓ} : {A : Type ℓ} → LogicError → Result A
  unfolding revert_name
  as_chain_revert err = and_then (revert_name err) λ name. raised (chain_revert name)

  unfoldable pub owner_of : Raw Text → Result Text
  unfolding as_chain_revert
  owner_of (returns owner) = ok owner
  owner_of (reverts err) =
      and_then (revert_name err)
        λ name. if name == nonexistent then raised key_error else as_chain_revert err
  owner_of fails = raised library_error

  -- what `_transact_raw` makes of a transaction and its receipt
  unfoldable pub receipt_of : Raw Receipt → Result Receipt
  unfolding as_chain_revert
  receipt_of (returns receipt) =
      if receipt.status == 1 then ok receipt else raised (chain_revert (codes "TransactionFailed"))
  receipt_of (reverts err) = as_chain_revert err
  receipt_of fails = raised library_error

  unfoldable pub transact_raw : {W : Type 0} → Transaction W → Exec W Receipt
  unfolding receipt_of
  transact_raw fn w = let (raw, w') = fn w in (receipt_of raw, w')

  unfoldable pub transact : {W : Type 0} → Transaction W → Exec W Text
  unfolding transact_raw
  transact fn w =
      let (r, w') = transact_raw fn w in (and_then r λ receipt. ok receipt.transaction_hash, w')

  unfoldable pub faucet :
      {W : Type 0} (checksum : Text → Text) (mint : Text → ℕ → Transaction W) (address : Text)
      (amount : ℕ) (to : Option Text)
      → Exec W Text
  unfolding transact
  faucet checksum mint address amount to = transact (mint (checksum (or_self to address)) amount)

  unfoldable pub revoke :
      {W : Type 0} (revoke_of : ℕ → Transaction W) (entitlement_id : ℕ) → Exec W Text
  unfolding transact
  revoke revoke_of entitlement_id = transact (revoke_of entitlement_id)
