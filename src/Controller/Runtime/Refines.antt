-- ===== src/Controller/Runtime/Refines.antt =====
-- wiring.py and app.py: the runtime's steps are steps of the controller over time, so its sessions
-- are sound, and what a wake of a timer leaves of them.
use a2a_tokenized_provisioni.Base.{
  ℕ, zero, suc, ◌≡◌, ◌<◌, false, some, List, [], ◌∷◌, inl, inr, Bool-cases, Option-cases, text_eq,
}
use a2a_tokenized_provisioni.Base.Decimal.{Text}
use a2a_tokenized_provisioni.Exec.{ok}
use a2a_tokenized_provisioni.Dict
use a2a_tokenized_provisioni.Interfaces.{active}
use a2a_tokenized_provisioni.Interfaces.Ports.{EntitlementReader, TeardownReturns}
use a2a_tokenized_provisioni.Controller.Service.{Session, Service, Wiring, session}
use a2a_tokenized_provisioni.Controller.Teardown.Loops.{tick-ends}
use a2a_tokenized_provisioni.Controller.Reach.{
  challenges, activates, requests_teardown, ticks, hears_revoked, network_moves, Reach, here, next,
  Reach-single,
}
use a2a_tokenized_provisioni.Controller.Runtime.Timers.{flag, run_nth-if_running}
use a2a_tokenized_provisioni.Controller.App.{
  Request, post_challenge, post_activate, post_teardown, get_session, valid_request, handle, app,
}
use a2a_tokenized_provisioni.Controller.Runtime.{
  ExpiryTimer, ControllerRuntime, run_nth, wake, Event, requested, woke, revoked, moved, started,
  closing, react, run, build_runtime,
}

module _ {N : Type 0} (wiring : Wiring N) (start : Service N) where
  -- Reading a session writes nothing.
  session-keeps : (sid : Text) (s : Service N) → (session sid s).1 ≡ s
  unfolding session
  session-keeps sid s = elim (Option-cases (Dict.get s.sessions sid)) [
    | inl e ↦ rw (e, session)
    | inr (x, e) ↦ rw (e, session)
  ]

  app-Reach :
      (reader : EntitlementReader) (token : Text) (request : Request) {s : Service N}
      → Reach wiring start s
      → Reach wiring start (app wiring reader token request s).1
  unfolding app handle
  app-Reach reader token (post_challenge id) {s} r = next r (challenges reader token id s)
  app-Reach reader token (post_activate id kind nonce signature) {s} r =
      elim (Bool-cases (valid_request (post_activate id kind nonce signature))) [
        | inl good ↦ rw good (next r (activates reader id kind nonce signature s))
        | inr bad ↦ rw bad r
      ]
  app-Reach reader token (post_teardown sid nonce signature) {s} r =
      elim (Bool-cases (valid_request (post_teardown sid nonce signature))) [
        | inl good ↦ rw good (next r (requests_teardown reader sid nonce signature s))
        | inr bad ↦ rw bad r
      ]
  app-Reach reader token (get_session sid) {s} r = rw (session-keeps sid s) r

  run_nth-Reach :
      (reader : EntitlementReader) (k : ℕ) (timers : List ExpiryTimer) {s : Service N}
      → Reach wiring start s
      → Reach wiring start (run_nth wiring reader k timers s).1
  unfolding run_nth
  run_nth-Reach reader k [] r = r
  run_nth-Reach reader zero (timer ∷ timers) {s} r = elim (Bool-cases timer.stopped) [
    | inl off ↦ rw off r
    | inr on ↦ rw on (next r (ticks reader s))
  ]
  run_nth-Reach reader (suc k) (timer ∷ timers) r = run_nth-Reach reader k timers r

  react-Reach :
      (event : Event N) (r : ControllerRuntime N)
      → Reach wiring start r.service
      → Reach wiring start (react wiring event r).service
  unfolding react
  react-Reach (requested reader token request) r h = app-Reach reader token request h
  react-Reach (woke reader k) r h = run_nth-Reach reader k r.timers h
  react-Reach (revoked reader id) r h = elim (Bool-cases r.watching) [
    | inl on ↦ elim (Bool-cases r.closed) [
      | inl over ↦ rw (on, over) h
      | inr live ↦ rw (on, live) (next h (hears_revoked reader id r.service))
    ]
    | inr off ↦ rw off h
  ]
  react-Reach (moved net) r h = next h (network_moves net r.service)
  react-Reach started r h = elim (Bool-cases r.closed) [ inl e ↦ rw e h | inr e ↦ rw e h ]
  react-Reach closing r h = h

  run-Reach_from :
      (events : List (Event N)) (r : ControllerRuntime N)
      → Reach wiring start r.service
      → Reach wiring start (run wiring events r).service
  unfolding run
  run-Reach_from [] r h = h
  run-Reach_from (event ∷ events) r h =
      run-Reach_from events (react wiring event r) (react-Reach event r h)

  -- What the runtime does, the controller over time may do.
  run-Reach :
      (events : List (Event N))
      → Reach wiring start (run wiring events (build_runtime start)).service
  unfolding build_runtime
  run-Reach events = run-Reach_from events (build_runtime start) here

  module _ (no_sessions : start.sessions ≡ []) (returns : TeardownReturns wiring.provisioner) where
    -- Whatever came before, failed wakes included, a wake of any of the timers that was started and
    -- not stopped, whose reading of the chain's time is `now`, leaves
    -- no active session whose end has come.
    pub wake-expired :
        (events : List (Event N)) (reader : EntitlementReader) (now k : ℕ)
        → let r = run wiring events (build_runtime start) in
          flag k r.timers ≡ some false
          → reader.chain_time ≡ ok now
          → (j : Text) (x : Session) → Dict.get (wake wiring reader k r).service.sessions j ≡ some x
          → x.state ≡ active
          → now < x.expires_at
    unfolding wake
    wake-expired events reader now k running timed j x h a =
        let r = run wiring events (build_runtime start) in
        let sound = Reach-single wiring start no_sessions r.service (run-Reach events) in
        let ticked = run_nth-if_running wiring reader k r.timers r.service in
        (tick-ends wiring reader returns now timed r.service sound).2 j x
          (rw running at (rw ticked at h)) a
