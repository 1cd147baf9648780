-- ===== src/Chainmcp/Signing.antt =====
-- chainmcp/src/chainmcp/client.py and mcp_server.py: the proof that an agent signs with its key. The
-- account of eth_account is a parameter: its address, and what it signs a text with.
use a2a_tokenized_provisioni.Base.{ℕ, ◌++◌, ◌≡◌, true}
use a2a_tokenized_provisioni.Base.Decimal.{Text, codes}
use a2a_tokenized_provisioni.Exec.{ok}
use a2a_tokenized_provisioni.Interfaces.Patterns.{is_signature}
use a2a_tokenized_provisioni.Controller.Auth.{Recover}
use a2a_tokenized_provisioni.Controller.Auth.Messages.{activation_proof_message}

-- `sign_message` is the signature's bytes in hexadecimal digits
pub record Account : Type 0 where
  pub address : Text
  pub sign_message : Text → Text

-- `"0x" + signed.signature.hex()`
abbrev pub signature_of : Account → (message : Text) → Text
signature_of account message = codes "0x" ++ account.sign_message message

-- the signature and the address
unfoldable pub sign_activation_proof :
    Account → (entitlement_id : ℕ) (nonce controller_id : Text) (expires_at : ℕ) → Text × Text
sign_activation_proof account entitlement_id nonce controller_id expires_at = (
  signature_of account (activation_proof_message controller_id nonce entitlement_id expires_at),
  account.address,
)

-- What eth_account documents: a signature has 65 bytes, and the signer is recovered from it.
pub record Genuine (recover : Recover) (account : Account) : Type 0 where
  pub sixty_five : (message : Text) → is_signature (signature_of account message) ≡ true
  pub recovers :
      (message : Text) → recover message (signature_of account message) ≡ ok account.address
