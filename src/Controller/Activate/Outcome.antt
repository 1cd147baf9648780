-- ===== src/Controller/Activate/Outcome.antt =====
-- service.py: what `activate` returns and writes, by what the chain, the proof and the network say.
use a2a_tokenized_provisioni.Base.{
  ℕ, ◌+◌, ◌≡◌, refl, ◌⊎◌, sym, ap, ◌∙◌, true, false, some, List, [], ◌∷◌, inl, inr, Bool-cases,
  text_eq,
}
use a2a_tokenized_provisioni.Base.Decimal.{Text, codes}
use a2a_tokenized_provisioni.Exec.{ok, raised, denied, Result-cases}
use a2a_tokenized_provisioni.Dict
use a2a_tokenized_provisioni.Dict.{Dict, put-cases}
use a2a_tokenized_provisioni.Interfaces.{
  ApplyResult, EntitlementView, authorized, active, failed, e_network,
}
use a2a_tokenized_provisioni.Interfaces.Ports.{EntitlementReader}
use a2a_tokenized_provisioni.Controller.Domain.{
  known_service_types, state_eq, transition-authorize, transition-provision_ok,
  transition-provision_failed,
}
use a2a_tokenized_provisioni.Controller.Domain.Order.{predicate-none_iff}
use a2a_tokenized_provisioni.Controller.Auth.{AuthStore, verify}
use a2a_tokenized_provisioni.Controller.Auth.Nonces.{verify-none_iff}
use a2a_tokenized_provisioni.Controller.Translators.{ProvisionerCall, translate, dispatch}
use a2a_tokenized_provisioni.Controller.Service.{
  Session, Service, Wiring, info, session_id, active_ids, mapped, view_of, known_id,
}
use a2a_tokenized_provisioni.Controller.Activate.{
  new_session, authorize, abandon, provision, open_session, activate,
}
use a2a_tokenized_provisioni.Controller.Activate.Sound.{
  authorize-keeps, Authorized, authorize-Authorized,
}

module _ {N : Type 0} (wiring : Wiring N) where
  -- A session that is active after the calls was there before, or it is the new one.
  provision-origin :
      (session : Session) (calls : List ProvisionerCall) (s : Service N) (k : Text) (x : Session)
      → session.state ≡ authorized
      → Dict.get (provision wiring session calls s).1.sessions k ≡ some x
      → x.state ≡ active
      → (Dict.get s.sessions k ≡ some x) ⊎ (x ≡ record session { state = active })
  unfolding provision abandon
  provision-origin session [] s k x w h a =
      elim (put-cases s.sessions session.session_id k (record session { state = active }) x
        (rw (w, transition-provision_ok) at h)) [ inl (_, e) ↦ inr (sym e) | inr (_, e) ↦ inl e ]
  provision-origin session (call ∷ calls) s k x w h a =
      let n' = (dispatch wiring.provisioner call s.net).1 in
      elim (Result-cases (dispatch wiring.provisioner call s.net).0) [
        | inl (r, p) ↦ elim (Bool-cases r.ok) [
          | inl good ↦
              provision-origin session calls (record s { net = n' }) k x w (rw (p, good) at h) a
          | inr bad ↦ elim (Result-cases (wiring.provisioner.teardown session.session_id n').0) [
            | inl (t, q) ↦
                elim (put-cases s.sessions session.session_id k (record session { state = failed })
                  x (rw (p, bad, q, w, transition-provision_failed) at h)) [
                    | inl (_, e) ↦ absurd (cc (ap (λ (z : Session). z.state) e))
                    | inr (_, e) ↦ inl e
                  ]
            | inr (t, q) ↦ inl (rw (p, bad, q) at h)
          ]
        ]
        | inr (y, p) ↦ inl (rw p at h)
      ]

  open_session-origin :
      (id : ℕ) (view : EntitlementView) (now : ℕ) (s : Service N) (k : Text) (x : Session)
      → Dict.get (open_session wiring id (view, now) s).1.sessions k ≡ some x
      → x.state ≡ active
      → (Dict.get s.sessions k ≡ some x) ⊎ (x ≡ new_session id s.seq view now active)
  unfolding open_session
  open_session-origin id view now s k x h a =
      elim (Result-cases (mapped (translate (session_id id s.seq) view wiring.resource_map))) [
        | inl (calls, p) ↦
            provision-origin (new_session id s.seq view now authorized) calls
              (record s { seq = s.seq + 1 }) k x refl (rw (transition-authorize, p) at h) a
        | inr (y, p) ↦ inl (rw (transition-authorize, p) at h)
      ]

  -- A session that is active after an activation was there before, or the activation was
  -- authorized and the session is the one that it opened.
  pub activate-origin :
      (reader : EntitlementReader) (id : ℕ) (kind nonce signature : Text) (s : Service N) (k : Text)
      (x : Session)
      → Dict.get (activate wiring reader id kind nonce signature s).1.sessions k ≡ some x
      → x.state ≡ active
      → (Dict.get s.sessions k ≡ some x)
        ⊎ ((view : EntitlementView) × (now : ℕ) × Authorized wiring reader id kind nonce signature s
              view now
            × (x ≡ new_session id s.seq view now active))
  unfolding activate
  activate-origin reader id kind nonce signature s k x h a =
      let t = (authorize wiring reader id kind nonce signature s).1 in
      let (same_sessions, same_seq, _) = authorize-keeps wiring reader id kind nonce signature s in
      elim (Result-cases (authorize wiring reader id kind nonce signature s).0) [
        | inl ((view, now), p) ↦ elim (open_session-origin id view now t k x (rw p at h) a) [
          | inl e ↦ inl (rw same_sessions at e)
          | inr e ↦ inr (
            view,
            now,
            authorize-Authorized wiring reader id kind nonce signature s view now p,
            e ∙ ap (λ n. new_session id n view now active) same_seq,
          )
        ]
        | inr (y, p) ↦ inl (rw same_sessions at (rw p at h))
      ]

module _ {N : Type 0} (wiring : Wiring N) (reader : EntitlementReader) (id : ℕ)
    (kind nonce signature : Text) (s : Service N) (view : EntitlementView) (now : ℕ)
    (a : Authorized wiring reader id kind nonce signature s view now) where
  -- the nonces after the proof was checked
  abbrev pub spent : AuthStore
  spent = (verify wiring.recover id nonce signature a.owner now (codes "activate") s.auth).1

  pub authorize_returns :
      authorize wiring reader id kind nonce signature s
      ≡ (ok (view, now), record s { auth = spent })
  unfolding authorize view_of
  authorize_returns = rw (
    a.viewed,
    known_id,
    a.owned,
    a.timed,
    (verify-none_iff wiring.recover id nonce signature a.owner now (codes "activate") s.auth).1
        a.proven,
    (predicate-none_iff view a.owner a.owner now (active_ids s.sessions) (some kind)
          known_service_types).1
        a.permitted,
  )

  module _ (call : ProvisionerCall) (result : ApplyResult)
      (translated : translate (session_id id s.seq) view wiring.resource_map ≡ ok (call ∷ []))
      (applied : (dispatch wiring.provisioner call s.net).0 ≡ ok result) where
    abbrev net' : N
    net' = (dispatch wiring.provisioner call s.net).1

    -- An authorized activation whose one call the network accepts returns the new session, active
    -- until the entitlement's end; it has spent the nonce and one number, and called the network
    -- once.
    pub activate_returns :
        result.ok ≡ true
        → let session = new_session id s.seq view now active in
          activate wiring reader id kind nonce signature s ≡ (
            ok (info session),
            record {
              auth = spent;
              sessions = Dict.put s.sessions session.session_id session;
              seq = s.seq + 1;
              net = net';
            },
          )
    unfolding activate open_session mapped provision
    activate_returns good = rw (
      authorize_returns, transition-authorize, translated, applied, good, transition-provision_ok,
    )

    -- If the network refuses the call, the session is torn down by its id, it is kept as failed,
    -- and the caller is told of the network.
    pub activate_refused :
        (r : ApplyResult)
        → result.ok ≡ false
        → (wiring.provisioner.teardown (session_id id s.seq) net').0 ≡ ok r
        → let session = new_session id s.seq view now failed in
          activate wiring reader id kind nonce signature s ≡ (
            raised (denied e_network),
            record {
              auth = spent;
              sessions = Dict.put s.sessions session.session_id session;
              seq = s.seq + 1;
              net = (wiring.provisioner.teardown (session_id id s.seq) net').1;
            },
          )
    unfolding activate open_session mapped provision abandon
    activate_refused r bad cleared = rw (
      authorize_returns, transition-authorize, translated, applied, bad, cleared,
      transition-provision_failed,
    )
