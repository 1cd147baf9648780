-- ===== src/Controller/App.antt =====
-- controller/src/controller/app.py: the status of each answer, and the endpoints over the service.
-- A request is a body with its fields, after FastAPI's routing and parsing; what the shapes of
-- models.py refuse is answered with 422 before a handler runs, and an exception that no handler
-- names with 500. Ids below zero are left out.
pub mod Stored
use a2a_tokenized_provisioni.Base.{ℕ, ◌+◌, Bool, true, not, ◌&&◌, if◌then◌else◌}
use a2a_tokenized_provisioni.Base.Decimal.{Text}
use a2a_tokenized_provisioni.Exec.{Exec, Result, ok, raised, denied}
use a2a_tokenized_provisioni.Interfaces.{
  SessionState, SessionInfo, ErrorCode, e_unknown_entitlement, e_not_owner, e_bad_proof,
  e_nonce_reused, e_not_started, e_expired, e_revoked, e_scope, e_conflict, e_network,
}
use a2a_tokenized_provisioni.Interfaces.Ports.{EntitlementReader}
use a2a_tokenized_provisioni.Interfaces.Patterns.{is_signature, is_kind}
use a2a_tokenized_provisioni.Controller.Auth.{Challenge}
use a2a_tokenized_provisioni.Controller.Service.{Service, Wiring, challenge, session}
use a2a_tokenized_provisioni.Controller.Activate.{activate}
use a2a_tokenized_provisioni.Controller.Teardown.{teardown_requested}

-- `STATUS`
unfoldable pub status : ErrorCode → ℕ
status e_unknown_entitlement = 404
status e_bad_proof = 401
status e_nonce_reused = 401
status e_not_owner = 403
status e_not_started = 403
status e_expired = 403
status e_revoked = 403
status e_scope = 403
status e_conflict = 403
status e_network = 502

-- `ChallengeRequest`, `ActivateRequest`, `TeardownRequest`, and the read of a session
pub data Request : Type 0 where
  post_challenge : (entitlement_id : ℕ) → Request
  post_activate : (entitlement_id : ℕ) (kind nonce signature : Text) → Request
  post_teardown : (session_id nonce signature : Text) → Request
  get_session : (session_id : Text) → Request

-- The bodies of the answers; all but the last three have status 200.
pub data Response : Type 0 where
  challenge_response : Challenge → Response
  session_info : SessionInfo → Response
  state_response : SessionState → Response
  error_response : (status_code : ℕ) (error : ErrorCode) → Response
  unprocessable server_error : Response

-- what the shapes of a request allow
unfoldable pub valid_request : Request → Bool
valid_request (post_challenge entitlement_id) = true
valid_request (post_activate entitlement_id kind nonce signature) =
    is_kind kind && is_signature signature
valid_request (post_teardown session_id nonce signature) = is_signature signature
valid_request (get_session session_id) = true

-- the answer to a result, with `_denied` as the handler of `Denied`
unfoldable pub respond : {A : Type 0} → (A → Response) → Result A → Response
unfolding status
respond body (ok a) = body a
respond body (raised (denied code)) = error_response (status code) code
respond body (raised x) = server_error

module _ {N : Type 0} where
  abbrev pub responding :
      {A : Type 0} → (A → Response) → Exec (Service N) A → Service N → Response × Service N
  responding body m s = let (r, t) = m s in (respond body r, t)

  -- the endpoints; `token` is the randomness of a challenge
  unfoldable pub handle :
      Wiring N → EntitlementReader → (token : Text) → Request → Service N → Response × Service N
  unfolding respond
  handle wiring reader token (post_challenge entitlement_id) =
      responding challenge_response (challenge reader token entitlement_id)
  handle wiring reader token (post_activate entitlement_id kind nonce signature) =
      responding session_info (activate wiring reader entitlement_id kind nonce signature)
  handle wiring reader token (post_teardown session_id nonce signature) =
      responding (λ info. state_response info.state)
        (teardown_requested wiring reader session_id nonce signature)
  handle wiring reader token (get_session session_id) = responding session_info (session session_id)

  -- `build_app`: a request that the shapes refuse reaches no endpoint
  unfoldable pub app :
      Wiring N → EntitlementReader → (token : Text) → Request → Service N → Response × Service N
  unfolding handle valid_request
  app wiring reader token request s =
      if not (valid_request request)
      then (unprocessable, s)
      else handle wiring reader token request s
