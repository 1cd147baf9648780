-- ===== src/Controller/Teardown.antt =====
-- controller/src/controller/service.py: `teardown_requested`, `teardown`, `tick` and
-- `handle_revoked`. A loop over `list(self._sessions.values())` keeps the keys and reads each
-- session when its turn comes, since the session objects are those of the dictionary.
pub mod Sound
pub mod Loops
use a2a_tokenized_provisioni.Base.{
  ℕ, Bool, Option, none, some, List, [], ◌∷◌, ◌==◌, ◌&&◌, leb, if◌then◌else◌, text_eq, nat_eq,
}
use a2a_tokenized_provisioni.Base.Decimal.{Text, codes}
use a2a_tokenized_provisioni.Exec.{Exec, pure, lift, gets, deny, ◌>>=◌, ◌>>◌}
use a2a_tokenized_provisioni.Dict
use a2a_tokenized_provisioni.Dict.{Dict}
use a2a_tokenized_provisioni.Interfaces.{SessionInfo, active}
use a2a_tokenized_provisioni.Interfaces.Ports.{EntitlementReader}
use a2a_tokenized_provisioni.Controller.Domain.{transition, state_eq}
use a2a_tokenized_provisioni.Controller.Service.{
  Session, Service, Wiring, info, no_session, on_net, write_session, check_proof,
}

module _ {N : Type 0} (wiring : Wiring N) where
  -- `teardown`, by what the dictionary holds
  unfoldable pub end_session : Text → Option Session → Exec (Service N) SessionInfo
  end_session sid none = do on_net (wiring.provisioner.teardown sid); pure (no_session sid)
  end_session sid (some session) = do
    on_net (wiring.provisioner.teardown sid)
    state ← lift (transition session.state (codes "teardown"))
    write_session sid (record session { state = state })
    pure (info (record session { state = state }))

  unfoldable pub teardown : Text → Exec (Service N) SessionInfo
  unfolding end_session
  teardown sid = do found ← gets (λ s. Dict.get s.sessions sid); end_session sid found

  -- `teardown_requested`, by what the dictionary holds
  unfoldable pub request_end :
      EntitlementReader
      → (sid nonce signature : Text) → Option Session
      → Exec (Service N) SessionInfo
  request_end reader sid nonce signature none = pure (no_session sid)
  request_end reader sid nonce signature (some session) = do
    owner ← lift (reader.owner_of session.entitlement_id)
    now ← lift reader.chain_time
    denial ←
        check_proof wiring.recover session.entitlement_id nonce signature owner now
          (codes "teardown")
    deny denial
    teardown sid

  unfoldable pub teardown_requested :
      EntitlementReader → (sid nonce signature : Text) → Exec (Service N) SessionInfo
  unfolding request_end
  teardown_requested reader sid nonce signature = do
    found ← gets (λ s. Dict.get s.sessions sid)
    request_end reader sid nonce signature found

  -- The turn of one session in a loop: if it is active and fits the loop's own test it is ended,
  -- and its id is noted; `later` is the rest of the loop.
  unfoldable pub visit :
      (Session → Bool)
      → Option Session
      → Exec (Service N) (List Text)
      → Exec (Service N) (List Text)
  visit test none later = later
  visit test (some x) later =
      if x.state == active && test x
      then (do teardown x.session_id; ended ← later; pure (x.session_id ∷ ended))
      else later

  -- A loop over the sessions; the two loops of the service differ in the test.
  unfoldable pub sweep : (Session → Bool) → List Text → Exec (Service N) (List Text)
  unfolding visit
  sweep test [] = pure []
  sweep test (key ∷ rest) =
      let later = sweep test rest in
      do found ← gets (λ s. Dict.get s.sessions key); visit test found later

  unfoldable pub tick : EntitlementReader → Exec (Service N) (List Text)
  tick reader = do
    now ← lift reader.chain_time
    sids ← gets (λ s. Dict.keys s.sessions)
    sweep (λ x. leb x.expires_at now) sids

  unfoldable pub handle_revoked :
      EntitlementReader → (entitlement_id : ℕ) → Exec (Service N) (Unit {0})
  handle_revoked reader entitlement_id = do
    view ← lift (reader.get entitlement_id)
    if view.revoked
        then (do
          sids ← gets (λ s. Dict.keys s.sessions)
          sweep (λ x. x.entitlement_id == entitlement_id) sids
          pure tt)
        else pure tt
