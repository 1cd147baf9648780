-- ===== src/Controller/App/Stored.antt =====
-- app.py and service.py: what a session in the answer to an activation says of the service.
use a2a_tokenized_provisioni.Base.{
  ℕ, arith, ◌≡◌, ◌≢◌, ◌+◌, refl, List, [], ◌∷◌, some, inl, inr, Bool-cases, text_eq,
}
use a2a_tokenized_provisioni.Base.Decimal.{Text}
use a2a_tokenized_provisioni.Exec.{ok, Result-cases, raised-ne-ok}
use a2a_tokenized_provisioni.Dict
use a2a_tokenized_provisioni.Dict.{get-put_self}
use a2a_tokenized_provisioni.Interfaces.{SessionInfo, EntitlementView, active, authorized}
use a2a_tokenized_provisioni.Interfaces.Ports.{EntitlementReader}
use a2a_tokenized_provisioni.Controller.Domain.{transition-authorize, transition-provision_ok}
use a2a_tokenized_provisioni.Controller.Translators.{ProvisionerCall, translate, dispatch}
use a2a_tokenized_provisioni.Controller.Service.{Session, Service, Wiring, info, session_id, mapped}
use a2a_tokenized_provisioni.Controller.Activate.{
  new_session, authorize, abandon, provision, open_session, activate,
}

-- The session of an answer stands in the service under its id, active, for the entitlement.
pub record Stored {N : Type 0} (id : ℕ) (i : SessionInfo) (t : Service N) : Type 0 where
  pub session : Session
  pub stands : Dict.get t.sessions i.session_id ≡ some session
  pub shown : info session ≡ i
  pub is_active : session.state ≡ active
  pub for_id : session.entitlement_id ≡ id

module _ {N : Type 0} (wiring : Wiring N) (i : SessionInfo) where
  -- `abandon` raises on every path.
  abandon-ne-ok : (session : Session) (s : Service N) → (abandon wiring session s).0 ≢ ok i
  unfolding abandon
  abandon-ne-ok session s h = ground arith

  provision-put :
      (session : Session) (calls : List ProvisionerCall) (s : Service N)
      → session.state ≡ authorized
      → (provision wiring session calls s).0 ≡ ok i
      → let x = record session { state = active } in
        (info x ≡ i)
        × ((provision wiring session calls s).1.sessions ≡ Dict.put s.sessions session.session_id x)
  unfolding provision
  provision-put session [] s w h =
      let h' = rw (w, transition-provision_ok) at h in (cc, rw (w, transition-provision_ok))
  provision-put session (call ∷ calls) s w h =
      let n' = (dispatch wiring.provisioner call s.net).1 in
      elim (Result-cases (dispatch wiring.provisioner call s.net).0) [
        | inl (r, p) ↦ elim (Bool-cases r.ok) [
          | inl good ↦
              rw (p, good)
                (provision-put session calls (record s { net = n' }) w (rw (p, good) at h))
          | inr bad ↦ absurd (abandon-ne-ok session (record s { net = n' }) (rw (p, bad) at h))
        ]
        | inr (y, p) ↦ absurd (raised-ne-ok (rw p at h))
      ]

  open_session-Stored :
      (id : ℕ) (view : EntitlementView) (now : ℕ) (s : Service N)
      → (open_session wiring id (view, now) s).0 ≡ ok i
      → Stored id i (open_session wiring id (view, now) s).1
  unfolding open_session
  open_session-Stored id view now s h =
      elim (Result-cases (mapped (translate (session_id id s.seq) view wiring.resource_map))) [
        | inl (calls, p) ↦
            let x = new_session id s.seq view now active in
            let (e, f) =
              provision-put (new_session id s.seq view now authorized) calls
                (record s { seq = s.seq + 1 }) refl (rw (transition-authorize, p) at h) in
            rw (transition-authorize, p)
              (record {
                session = x;
                stands = rw (f, ← e) (get-put_self s.sessions x.session_id x);
                shown = e;
                is_active = refl;
                for_id = refl;
              })
        | inr (y, p) ↦ absurd (raised-ne-ok (rw (transition-authorize, p) at h))
      ]

  -- An activation that returns has stored its session, which is active and for that entitlement.
  pub activate-Stored :
      (reader : EntitlementReader) (id : ℕ) (kind nonce signature : Text) (s : Service N)
      → (activate wiring reader id kind nonce signature s).0 ≡ ok i
      → Stored id i (activate wiring reader id kind nonce signature s).1
  unfolding activate
  activate-Stored reader id kind nonce signature s h =
      let t = (authorize wiring reader id kind nonce signature s).1 in
      elim (Result-cases (authorize wiring reader id kind nonce signature s).0) [
        | inl ((view, now), p) ↦ rw p (open_session-Stored id view now t (rw p at h))
        | inr (y, p) ↦ absurd (raised-ne-ok (rw p at h))
      ]
