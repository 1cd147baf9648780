-- ===== src/Agents/Tools.antt =====
-- agents/src/agents/mcp_tools.py: the tools of the two graphs, over the operations of chainmcp
-- (chainmcp/src/chainmcp/mcp_server.py, whose callables pass their arguments on). The clocks and
-- `last_tx_hash` are left out. `http` is the client of the controller, over an outside world `W`;
-- the account and the transactions are those of the agent's own chainmcp.
pub mod Served
pub mod Selling
use a2a_tokenized_provisioni.Base.{ℕ, ◌⊎◌}
use a2a_tokenized_provisioni.Base.Decimal.{Text}
use a2a_tokenized_provisioni.Exec.{
  Exec, Result, ok, raised, key_error, value_error, runtime_error, not_implemented, raise, lift,
  ◌>>=◌, ◌>>◌,
}
use a2a_tokenized_provisioni.Interfaces.{ServiceNeed, SignedOffer, Decline}
use a2a_tokenized_provisioni.Controller.Auth.{Challenge}
use a2a_tokenized_provisioni.Controller.App.{
  Request, post_challenge, post_activate, Response, challenge_response, session_info, server_error,
}
use a2a_tokenized_provisioni.Chainmcp.Purchase.{Transactions, approve_and_fulfill}
use a2a_tokenized_provisioni.Chainmcp.Signing.{Account, sign_activation_proof}
use a2a_tokenized_provisioni.Agents.Consumer.{ConsumerTools}

-- `challenge["nonce"]` and the other two of `.json()`; the body of a crash is no JSON
unfoldable pub challenge_of : Response → Result Challenge
challenge_of (challenge_response challenge) = ok challenge
challenge_of server_error = raised value_error
challenge_of _ = raised key_error

-- `if "session_id" not in activation: raise RuntimeError`
unfoldable pub session_of : Response → Result Text
session_of (session_info info) = ok info.session_id
session_of server_error = raised value_error
session_of _ = raised runtime_error

module _ {W : Type 0} (account : Account) (tx : Transactions W) (tok_address : Text)
    (http : Request → Exec W Response) where
  -- `ChainConsumerTools.settle`
  unfoldable pub settle : SignedOffer → Exec W ℕ
  settle signed = approve_and_fulfill tx tok_address signed

  -- `ChainConsumerTools.activate`: challenge, sign, submit
  unfoldable pub activate : (entitlement_id : ℕ) (kind : Text) → Exec W Text
  unfolding challenge_of session_of sign_activation_proof
  activate entitlement_id kind = do
    asked ← http (post_challenge entitlement_id)
    challenge ← lift (challenge_of asked)
    let proof =
        sign_activation_proof account entitlement_id challenge.nonce challenge.controller_id
          challenge.expires_at
    answer ← http (post_activate entitlement_id kind challenge.nonce proof.0)
    lift (session_of answer)

  -- `ChainConsumerTools.quote`
  abbrev pub no_quote : ServiceNeed → Exec W (SignedOffer ⊎ Decline)
  no_quote need = raise not_implemented

  abbrev pub chain_consumer_tools : ConsumerTools W
  chain_consumer_tools = record { quote = no_quote; settle = settle; activate = activate }
