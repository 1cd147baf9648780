-- ===== src/Controller/Activate.antt =====
-- controller/src/controller/service.py: `activate`, in two halves.
pub mod Sound
pub mod Outcome
pub mod Accepts
use a2a_tokenized_provisioni.Base.{ℕ, some, List, [], ◌∷◌, if◌then◌else◌, text_eq, nat_eq}
use a2a_tokenized_provisioni.Base.Decimal.{Text, codes}
use a2a_tokenized_provisioni.Exec.{Exec, denied, pure, raise, lift, gets, deny, ◌>>=◌, ◌>>◌}
use a2a_tokenized_provisioni.Interfaces.{
  EntitlementView, SessionInfo, SessionState, requested, e_network,
}
use a2a_tokenized_provisioni.Interfaces.Ports.{EntitlementReader}
use a2a_tokenized_provisioni.Controller.Domain.{
  predicate, transition, known_service_types, state_eq,
}
use a2a_tokenized_provisioni.Controller.Translators.{ProvisionerCall, translate, dispatch}
use a2a_tokenized_provisioni.Controller.Service.{
  Session, Service, Wiring, info, session_id, active_ids, mapped, view_of, on_net, write_session,
  check_proof, next_seq,
}

-- the `_Session` of an activation, in a given state
abbrev pub new_session :
    (id n : ℕ) (view : EntitlementView) (now : ℕ) (state : SessionState) → Session
new_session id n view now state = record {
  session_id = session_id id n;
  entitlement_id = id;
  state = state;
  since = now;
  expires_at = view.end_time;
}

-- The first half of `activate`, up to the verdicts of the proof and of the predicate.
module _ {N : Type 0} (wiring : Wiring N) (reader : EntitlementReader) where
  unfoldable pub authorize :
      (entitlement_id : ℕ) (action_kind nonce signature : Text)
      → Exec (Service N) (EntitlementView × ℕ)
  authorize entitlement_id action_kind nonce signature = do
    view ← lift (view_of reader entitlement_id)
    owner ← lift (reader.owner_of entitlement_id)
    now ← lift reader.chain_time
    denial ← check_proof wiring.recover entitlement_id nonce signature owner now (codes "activate")
    deny denial
    booked ← gets (λ s. active_ids s.sessions)
    deny (predicate view owner owner now booked (some action_kind) known_service_types)
    pure (view, now)

module _ {N : Type 0} (wiring : Wiring N) where
  -- the body of `if not result.ok`
  unfoldable pub abandon : Session → Exec (Service N) SessionInfo
  abandon session = do
    on_net (wiring.provisioner.teardown session.session_id)
    state ← lift (transition session.state (codes "provision_failed"))
    write_session session.session_id (record session { state = state })
    raise (denied e_network)

  -- the loop over the calls, and what follows it; `session` is in the state after "authorize"
  unfoldable pub provision : Session → List ProvisionerCall → Exec (Service N) SessionInfo
  unfolding abandon
  provision session [] = do
    state ← lift (transition session.state (codes "provision_ok"))
    write_session session.session_id (record session { state = state })
    pure (info (record session { state = state }))
  provision session (call ∷ calls) =
      let rest = provision session calls in
      do
        result ← on_net (dispatch wiring.provisioner call)
        if result.ok then rest else abandon session

  -- The second half of `activate`: a new session id, the translation, the calls.
  unfoldable pub open_session :
      (entitlement_id : ℕ) → EntitlementView × ℕ → Exec (Service N) SessionInfo
  open_session entitlement_id (view, now) = do
    n ← next_seq
    state ← lift (transition requested (codes "authorize"))
    calls ← lift (mapped (translate (session_id entitlement_id n) view wiring.resource_map))
    provision (new_session entitlement_id n view now state) calls

  unfoldable pub activate :
      EntitlementReader
      → (entitlement_id : ℕ) (action_kind nonce signature : Text) → Exec (Service N) SessionInfo
  activate reader entitlement_id action_kind nonce signature = do
    admitted ← authorize wiring reader entitlement_id action_kind nonce signature
    open_session entitlement_id admitted
