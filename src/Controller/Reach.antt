-- ===== src/Controller/Reach.antt =====
-- The controller over time (service.py, and the watcher and the timer of wiring.py): any sequence
-- of its calls, each with the chain as it is then, with moves of the network in between.
use a2a_tokenized_provisioni.Base.{ℕ, ◌≡◌, ap, ◌⊎◌, inl, inr, some, [], text_eq}
use a2a_tokenized_provisioni.Base.Decimal.{Text}
use a2a_tokenized_provisioni.Dict
use a2a_tokenized_provisioni.Dict.{Dict, get-nil}
use a2a_tokenized_provisioni.Interfaces.{EntitlementView, active}
use a2a_tokenized_provisioni.Interfaces.Ports.{EntitlementReader}
use a2a_tokenized_provisioni.Controller.Service.{Session, Service, Wiring, session_id, challenge}
use a2a_tokenized_provisioni.Controller.Sessions.{IsSound, IsSound-empty}
use a2a_tokenized_provisioni.Controller.Activate.{activate}
use a2a_tokenized_provisioni.Controller.Activate.Sound.{Authorized, activate-IsSound}
use a2a_tokenized_provisioni.Controller.Activate.Outcome.{activate-origin}
use a2a_tokenized_provisioni.Controller.Teardown.{tick, handle_revoked, teardown_requested}
use a2a_tokenized_provisioni.Controller.Quiet.{
  challenge-Quietly, teardown_requested-Quietly, tick-Quietly, handle_revoked-Quietly,
}

module _ {N : Type 0} (wiring : Wiring N) where
  pub data Step : Service N → Service N → Type 0 where
    challenges :
        (reader : EntitlementReader) (token : Text) (id : ℕ) (s : Service N)
        → Step s (challenge reader token id s).1
    activates :
        (reader : EntitlementReader) (id : ℕ) (kind nonce signature : Text) (s : Service N)
        → Step s (activate wiring reader id kind nonce signature s).1
    requests_teardown :
        (reader : EntitlementReader) (sid nonce signature : Text) (s : Service N)
        → Step s (teardown_requested wiring reader sid nonce signature s).1
    ticks : (reader : EntitlementReader) (s : Service N) → Step s (tick wiring reader s).1
    hears_revoked :
        (reader : EntitlementReader) (id : ℕ) (s : Service N)
        → Step s (handle_revoked wiring reader id s).1
    network_moves : (n : N) (s : Service N) → Step s (record s { net = n })

  pub data Reach (start : Service N) : Service N → Type 0 where
    here : Reach start start
    next : {s t : Service N} → Reach start s → Step s t → Reach start t

  -- Where in a sequence of calls a session was opened: an activation of the sequence, with the
  -- chain as it was at that call, was authorized and opened it.
  pub data Origin (start : Service N) : (t : Service N) → Reach start t → Session → Type 0 where
    opened_now :
        {s : Service N} (r : Reach start s) (reader : EntitlementReader) (id : ℕ)
        (kind nonce signature : Text) (view : EntitlementView) (now : ℕ) (x : Session)
        → Authorized wiring reader id kind nonce signature s view now
        → x ≡ record {
          session_id = session_id id s.seq;
          entitlement_id = id;
          state = active;
          since = now;
          expires_at = view.end_time;
        }
        → Origin start
            (activate wiring reader id kind nonce signature s).1
            (next r (activates reader id kind nonce signature s))
            x
    opened_before :
        {s t : Service N} (r : Reach start s) (step : Step s t) (x : Session)
        → Origin start s r x
        → Origin start t (next r step) x

  Step-IsSound : {s t : Service N} → Step s t → IsSound s.sessions s.seq → IsSound t.sessions t.seq
  Step-IsSound (challenges reader token id s) h = (challenge-Quietly reader token id s h).sound
  Step-IsSound (activates reader id kind nonce signature s) h =
      activate-IsSound wiring reader id kind nonce signature s h
  Step-IsSound (requests_teardown reader sid nonce signature s) h =
      (teardown_requested-Quietly wiring reader sid nonce signature s h).sound
  Step-IsSound (ticks reader s) h = (tick-Quietly wiring reader s h).sound
  Step-IsSound (hears_revoked reader id s) h = (handle_revoked-Quietly wiring reader id s h).sound
  Step-IsSound (network_moves n s) h = h

  Reach-IsSound :
      {s t : Service N} → Reach s t → IsSound s.sessions s.seq → IsSound t.sessions t.seq
  Reach-IsSound here h = h
  Reach-IsSound (next r step) h = Step-IsSound step (Reach-IsSound r h)

  Step-Origin :
      (start : Service N) {s t : Service N} (r : Reach start s) (step : Step s t)
      → IsSound s.sessions s.seq
      → (k : Text) (x : Session) → Dict.get t.sessions k ≡ some x
      → x.state ≡ active
      → (Dict.get s.sessions k ≡ some x) ⊎ Origin start t (next r step) x
  Step-Origin start r (challenges reader token id s) h k x g a =
      inl ((challenge-Quietly reader token id s h).not_new k x g a)
  Step-Origin start r (activates reader id kind nonce signature s) h k x g a =
      elim (activate-origin wiring reader id kind nonce signature s k x g a) [
        | inl old ↦ inl old
        | inr (view, now, warrant, e) ↦
            inr (opened_now r reader id kind nonce signature view now x warrant e)
      ]
  Step-Origin start r (requests_teardown reader sid nonce signature s) h k x g a =
      inl ((teardown_requested-Quietly wiring reader sid nonce signature s h).not_new k x g a)
  Step-Origin start r (ticks reader s) h k x g a =
      inl ((tick-Quietly wiring reader s h).not_new k x g a)
  Step-Origin start r (hears_revoked reader id s) h k x g a =
      inl ((handle_revoked-Quietly wiring reader id s h).not_new k x g a)
  Step-Origin start r (network_moves n s) h k x g a = inl g

  module _ (start : Service N) (no_sessions : start.sessions ≡ []) where
    start-IsSound : IsSound start.sessions start.seq
    start-IsSound = rw no_sessions (IsSound-empty start.seq)

    -- In every state that a controller reaches from one with no sessions, by any sequence of
    -- calls, each session stands under its own id, no entitlement has two active sessions, and no
    -- session is stuck before its provisioning.
    pub Reach-single : (t : Service N) → Reach start t → IsSound t.sessions t.seq
    Reach-single t r = Reach-IsSound r start-IsSound

    -- Every active session of such a state was opened by an activation of the sequence. By the
    -- chain as it was at that call, the owner signed its open nonce in time and the entitlement
    -- admitted it; the session has the next number, and ends at the entitlement's end.
    pub Reach-Origin :
        {t : Service N} (r : Reach start t) (k : Text) (x : Session)
        → Dict.get t.sessions k ≡ some x
        → x.state ≡ active
        → Origin start t r x
    Reach-Origin here k x g a =
        absurd
          (cc (get-nil {V = Session} k, ap (λ (d : Dict Text Session). Dict.get d k) no_sessions))
    Reach-Origin (next r step) k x g a =
        elim (Step-Origin start r step (Reach-IsSound r start-IsSound) k x g a) [
          | inl old ↦ opened_before r step x (Reach-Origin r k x old a)
          | inr new ↦ new
        ]
