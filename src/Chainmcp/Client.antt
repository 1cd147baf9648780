-- ===== src/Chainmcp/Client.antt =====
-- chainmcp/src/chainmcp/client.py: `ChainClient`, and with it the reads of `ChainReader`. web3 and
-- the deployed contract are parameters: a call returns, reverts with a decoded name, or fails. The
-- ABI decoders are parameters too.
pub mod Reads
use a2a_tokenized_provisioni.Base.{
  ℕ, ◌+◌, Bool, true, false, not, Option, none, some, List, [], ◌∷◌, ◌++◌, ◌==◌, leb, if◌then◌else◌,
  nat_eq, text_eq,
}
use a2a_tokenized_provisioni.Base.Decimal.{Text, codes}
use a2a_tokenized_provisioni.Exec.{
  and_then, Exec, Exception, Result, ok, raised, key_error, value_error, library_error,
  chain_revert, pure, raise, lift, ◌>>=◌, ◌>>◌,
}
use a2a_tokenized_provisioni.Interfaces.{
  Bytes, Params, bandwidth_params, telemetry_params, EntitlementView, SignedOffer,
}

-- `.call()` or `.transact()` and its receipt
pub data Call {ℓ} (A : Type ℓ) : Type ℓ where
  returns : A → Call A
  reverts : (name : Text) → Call A
  fails : Call A

-- the struct that `entitlements(id)` returns
pub record Entry : Type 0 where
  pub issuer : Text
  pub service_type : ℕ
  pub resource_id : Bytes
  pub params_blob : Bytes
  pub start_time : ℕ
  pub end_time : ℕ
  pub revoked : Bool
  pub terms_hash : Bytes

-- the contract's reads in one block, and the two decoders
pub record Views : Type 0 where
  pub call_owner_of : ℕ → Call Text
  pub call_entitlements : ℕ → Call Entry
  pub latest_timestamp : Call ℕ
  pub decode_bandwidth : Bytes → Result (ℕ × ℕ)
  pub decode_telemetry : Bytes → Result (List Text × (Text × ℕ))

abbrev pub nonexistent : Text
nonexistent = codes "ERC721NonexistentToken"

-- the `except` of `owner_of`
unfoldable pub owner_result : Call Text → Result Text
owner_result (returns owner) = ok owner
owner_result (reverts name) =
    if name == nonexistent then raised key_error else raised (chain_revert name)
owner_result fails = raised library_error

-- a read with no `except` of its own
unfoldable pub plain_result {ℓ} : {A : Type ℓ} → Call A → Result A
plain_result (returns a) = ok a
plain_result (reverts name) = raised library_error
plain_result fails = raised library_error

module _ (views : Views) where
  unfoldable pub owner_of : ℕ → Result Text
  unfolding owner_result
  owner_of id = owner_result (views.call_owner_of id)

  -- the branches on `service_type`
  unfoldable pub decode_params : (service_type : ℕ) → Bytes → Result Params
  decode_params service_type blob =
      if service_type == 0
      then and_then (views.decode_bandwidth blob) (λ p. ok (bandwidth_params p.0 p.1))
      else if service_type == 1
      then and_then (views.decode_telemetry blob) (λ p. ok (telemetry_params p.0 p.1.0 p.1.1))
      else raised value_error

  abbrev pub view_of_entry : (id : ℕ) → Entry → Params → EntitlementView
  view_of_entry id entry params = record {
    id = id;
    issuer = entry.issuer;
    service_type = entry.service_type;
    resource_id = entry.resource_id;
    params = params;
    start_time = entry.start_time;
    end_time = entry.end_time;
    revoked = entry.revoked;
    terms_hash = entry.terms_hash;
  }

  unfoldable pub get : ℕ → Result EntitlementView
  unfolding plain_result decode_params
  get id = and_then (owner_of id) λ owner.
      and_then (plain_result (views.call_entitlements id)) λ entry.
        and_then (decode_params entry.service_type entry.params_blob)
          λ params. ok (view_of_entry id entry params)

  unfoldable pub chain_time : Result ℕ
  unfolding plain_result
  chain_time = plain_result views.latest_timestamp
