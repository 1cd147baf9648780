-- ===== src/Controller/Activate/Sound.antt =====
-- service.py: `activate` keeps the sessions sound, and never books an entitlement twice.
use a2a_tokenized_provisioni.Base.{
  ℕ, ◌+◌, ◌≡◌, refl, ◌≢◌, subst, false, some, List, [], ◌∷◌, inl, inr, Bool-cases, arith, elem,
  nat_eq, text_eq,
}
use a2a_tokenized_provisioni.Base.Decimal.{Text, codes}
use a2a_tokenized_provisioni.Exec.{ok, Result-cases}
use a2a_tokenized_provisioni.Dict
use a2a_tokenized_provisioni.Dict.{Dict}
use a2a_tokenized_provisioni.Interfaces.{EntitlementView, authorized, active, failed}
use a2a_tokenized_provisioni.Interfaces.Ports.{EntitlementReader}
use a2a_tokenized_provisioni.Controller.Domain.{
  known_service_types, state_eq, transition-authorize, transition-provision_ok,
  transition-provision_failed,
}
use a2a_tokenized_provisioni.Controller.Domain.Order.{Admits, predicate-none_iff}
use a2a_tokenized_provisioni.Controller.Auth.Nonces.{Proven, verify-none_iff}
use a2a_tokenized_provisioni.Controller.Translators.{ProvisionerCall, translate, dispatch}
use a2a_tokenized_provisioni.Controller.Service.{
  Session, Service, Wiring, session_id, active_ids, mapped, view_of-eq-ok,
}
use a2a_tokenized_provisioni.Controller.Sessions.{
  IsSound, IsSound-skip, IsSound-put_new, active_ids-unbooked,
}
use a2a_tokenized_provisioni.Controller.Activate.{
  new_session, authorize, abandon, provision, open_session, activate,
}

module _ {N : Type 0} (wiring : Wiring N) (d : Dict Text Session) (n : ℕ) (sound : IsSound d n)
    (session : Session) (waiting : session.state ≡ authorized)
    (named : session.session_id ≡ session_id session.entitlement_id n)
    (alone : (k : Text) (y : Session)
      → Dict.get d k ≡ some y
      → y.state ≡ active
      → y.entitlement_id ≢ session.entitlement_id) where
  abandon-IsSound :
      (s : Service N) → s.sessions ≡ d → IsSound (abandon wiring session s).1.sessions (n + 1)
  unfolding abandon
  abandon-IsSound s e =
      elim (Result-cases ((wiring.provisioner.teardown session.session_id) s.net).0) [
        | inl (r, p) ↦
            rw (p, waiting, transition-provision_failed, e)
              (IsSound-put_new d n sound (record session { state = failed }) named tt (λ h. cc))
        | inr (x, p) ↦ rw (p, e) (IsSound-skip d n sound)
      ]

  provision-IsSound :
      (calls : List ProvisionerCall) (s : Service N)
      → s.sessions ≡ d
      → IsSound (provision wiring session calls s).1.sessions (n + 1)
  unfolding provision
  provision-IsSound [] s e =
      rw (waiting, transition-provision_ok, e)
        (IsSound-put_new d n sound (record session { state = active }) named tt (λ _. alone))
  provision-IsSound (call ∷ calls) s e =
      elim (Result-cases (dispatch wiring.provisioner call s.net).0) [
        | inl (r, p) ↦ elim (Bool-cases r.ok) [
          | inl good ↦
              rw (p, good)
                (provision-IsSound calls
                  (record s { net = (dispatch wiring.provisioner call s.net).1 }) e)
          | inr bad ↦
              rw (p, bad)
                (abandon-IsSound (record s { net = (dispatch wiring.provisioner call s.net).1 }) e)
        ]
        | inr (x, p) ↦ rw (p, e) (IsSound-skip d n sound)
      ]

module _ {N : Type 0} (wiring : Wiring N) (reader : EntitlementReader) (id : ℕ)
    (kind nonce signature : Text) (s : Service N) where
  -- Until its verdict `activate` has written to the nonces alone.
  pub authorize-keeps :
      let t = (authorize wiring reader id kind nonce signature s).1 in
      (t.sessions ≡ s.sessions) × (t.seq ≡ s.seq) × (t.net ≡ s.net)
  unfolding authorize
  authorize-keeps = ground arith

  -- What holds where the verdict is good.
  pub record Authorized (view : EntitlementView) (now : ℕ) : Type 0 where
    pub owner : Text
    pub viewed : reader.get id ≡ ok view
    pub owned : reader.owner_of id ≡ ok owner
    pub timed : reader.chain_time ≡ ok now
    pub proven : Proven wiring.recover id nonce signature owner now (codes "activate") s.auth
    pub permitted :
        Admits view owner owner now (active_ids s.sessions) (some kind) known_service_types

  pub authorize-Authorized :
      (view : EntitlementView) (now : ℕ)
      → (authorize wiring reader id kind nonce signature s).0 ≡ ok (view, now)
      → Authorized view now
  unfolding authorize
  authorize-Authorized view now h = elim (Result-cases (reader.owner_of id)) [
    | inl (owner, p) ↦ record {
      owner = owner;
      viewed = ground (arith, view_of-eq-ok reader id view, p);
      owned = p;
      timed = ground (arith, p);
      proven =
          (verify-none_iff wiring.recover id nonce signature owner now (codes "activate") s.auth).0
            (ground (arith, p));
      permitted =
          (predicate-none_iff view owner owner now (active_ids s.sessions) (some kind)
              known_service_types).0
            (ground (arith, p));
    }
    | inr (x, p) ↦ absurd (ground (arith, p))
  ]

module _ {N : Type 0} (wiring : Wiring N) where
  pub provision-seq :
      (session : Session) (calls : List ProvisionerCall) (s : Service N)
      → (provision wiring session calls s).1.seq ≡ s.seq
  unfolding provision abandon
  provision-seq session [] s = ground arith
  provision-seq session (call ∷ calls) s = ground (
    arith,
    provision-seq session calls (record s { net = (dispatch wiring.provisioner call s.net).1 }),
  )

  pub open_session-seq :
      (id : ℕ) (admitted : EntitlementView × ℕ) (s : Service N)
      → (open_session wiring id admitted s).1.seq ≡ s.seq + 1
  unfolding open_session
  open_session-seq id (view, now) s =
      rw transition-authorize
        (elim (Result-cases (mapped (translate (session_id id s.seq) view wiring.resource_map))) [
          | inl (calls, p) ↦ rw p (
              provision-seq (new_session id s.seq view now authorized) calls
                (record s { seq = s.seq + 1 }))
          | inr (x, p) ↦ rw p refl
        ])

  -- From sound sessions and an entitlement with no active one, the new session leaves them sound.
  pub open_session-IsSound :
      (id : ℕ) (admitted : EntitlementView × ℕ) (s : Service N)
      → IsSound s.sessions s.seq
      → ((k : Text) (y : Session)
          → Dict.get s.sessions k ≡ some y
          → y.state ≡ active
          → y.entitlement_id ≢ id)
      → IsSound (open_session wiring id admitted s).1.sessions (s.seq + 1)
  unfolding open_session
  open_session-IsSound id (view, now) s sound alone =
      rw transition-authorize
        (elim (Result-cases (mapped (translate (session_id id s.seq) view wiring.resource_map))) [
          | inl (calls, p) ↦ rw p (
              provision-IsSound wiring s.sessions s.seq sound
                (new_session id s.seq view now authorized) refl refl alone calls
                (record s { seq = s.seq + 1 }) refl)
          | inr (x, p) ↦ rw p (IsSound-skip s.sessions s.seq sound)
        ])

  -- Activation keeps the sessions sound, whether it returns or raises.
  pub activate-IsSound :
      (reader : EntitlementReader) (id : ℕ) (kind nonce signature : Text) (s : Service N)
      → IsSound s.sessions s.seq
      → let t = (activate wiring reader id kind nonce signature s).1 in IsSound t.sessions t.seq
  unfolding activate
  activate-IsSound reader id kind nonce signature s sound =
      let t = (authorize wiring reader id kind nonce signature s).1 in
      let (same_sessions, same_seq, _) = authorize-keeps wiring reader id kind nonce signature s in
      let still : IsSound t.sessions t.seq = rw (same_sessions, same_seq) sound in
      elim (Result-cases (authorize wiring reader id kind nonce signature s).0) [
        | inl ((view, now), p) ↦
            let a = authorize-Authorized wiring reader id kind nonce signature s view now p in
            rw (p, open_session-seq id (view, now) t)
              (open_session-IsSound id (view, now) t still
                (λ k y h ay e.
                  active_ids-unbooked s.sessions id k y
                    (subst (λ j. elem j (active_ids s.sessions) ≡ false)
                      (reader.get_id id view a.viewed) a.permitted.unbooked)
                    (subst (λ (d : Dict Text Session). Dict.get d k ≡ some y) same_sessions h) ay
                    e))
        | inr (x, p) ↦ rw p still
      ]
