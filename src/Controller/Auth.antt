-- ===== src/Controller/Auth.antt =====
-- controller/src/controller/auth.py: single-use challenges, and the check of a proof.
-- `Account.recover_message` of eth_account is the parameter `Recover`, from the signed text and
-- the signature to the signer's address; it raises on malformed bytes. The 16 random bytes of
-- `secrets.token_hex` are the argument `token`.
pub mod Messages
pub mod Nonces
use a2a_tokenized_provisioni.Base.{
  ℕ, ◌+◌, not, Option, none, some, ◌++◌, ◌==◌, ltb, if◌then◌else◌, text_eq, nat_eq,
}
use a2a_tokenized_provisioni.Base.Decimal.{Text, codes, decimal}
use a2a_tokenized_provisioni.Exec.{Result, ok, raised}
use a2a_tokenized_provisioni.Dict
use a2a_tokenized_provisioni.Dict.{Dict}
use a2a_tokenized_provisioni.Interfaces.{ErrorCode, e_nonce_reused, e_bad_proof, e_not_owner}

abbrev pub Recover : Type 0
Recover = Text → Text → Result Text

abbrev pub nonce_ttl_s : ℕ
nonce_ttl_s = 300

-- `a2a-{action}|{controller_id}|{nonce}|{entitlement_id}|{expires_at}`
unfoldable pub proof_message :
    (controller_id nonce : Text) (entitlement_id expires_at : ℕ) (action : Text) → Text
proof_message controller_id nonce entitlement_id expires_at action =
    codes "a2a-"
    ++ (action
        ++ (codes "|"
            ++ (controller_id
                ++ (codes "|"
                    ++ (nonce
                        ++ (codes "|"
                            ++ (decimal entitlement_id ++ (codes "|" ++ decimal expires_at))))))))

pub record Challenge : Type 0 where
  pub nonce : Text
  pub controller_id : Text
  pub expires_at : ℕ

-- `open_nonces` is `_open`: nonce → (entitlement_id, expires_at)
pub record AuthStore : Type 0 where
  pub controller_id : Text
  pub open_nonces : Dict Text (ℕ × ℕ)

unfoldable pub issue : (token : Text) (entitlement_id now : ℕ) → AuthStore → Challenge × AuthStore
issue token entitlement_id now store =
    let nonce = codes "0x" ++ token in
    let expires_at = now + nonce_ttl_s in
    (
      record { nonce = nonce; controller_id = store.controller_id; expires_at = expires_at },
      record store { open_nonces = Dict.put store.open_nonces nonce (entitlement_id, expires_at) },
    )

-- the last test of `verify`, on the outcome of the recovery
unfoldable pub judge_signer : Result Text → (owner : Text) → Option ErrorCode
judge_signer (ok signer) owner = if not (signer == owner) then some e_not_owner else none
judge_signer (raised x) owner = some e_bad_proof

module _ (recover : Recover) where
  -- `verify` after the nonce was popped; `issued` is what the pop gave
  unfoldable pub judge :
      (controller_id : Text) (issued : Option (ℕ × ℕ)) (entitlement_id : ℕ)
      (nonce signature owner : Text) (now : ℕ) (action : Text)
      → Option ErrorCode
  unfolding judge_signer
  judge controller_id none entitlement_id nonce signature owner now action = some e_nonce_reused
  judge controller_id (some (issued_for, expires_at)) entitlement_id nonce signature owner now
        action =
      if not (issued_for == entitlement_id)
      then some e_bad_proof
      else if ltb expires_at now
      then some e_bad_proof
      else judge_signer
          (recover (proof_message controller_id nonce entitlement_id expires_at action) signature)
          owner

  -- The nonce burns on every call, whatever the verdict.
  unfoldable pub verify :
      (entitlement_id : ℕ) (nonce signature owner : Text) (now : ℕ) (action : Text)
      → AuthStore
      → Option ErrorCode × AuthStore
  unfolding judge
  verify entitlement_id nonce signature owner now action store = (
    judge store.controller_id (Dict.get store.open_nonces nonce) entitlement_id nonce signature
        owner now action,
    record store { open_nonces = Dict.remove store.open_nonces nonce },
  )
