-- ===== src/Controller/Activate/Accepts.antt =====
-- service.py: when `activate` returns a session.
use a2a_tokenized_provisioni.Base.{
  ℕ, ◌+◌, ◌≡◌, refl, true, List, [], ◌∷◌, ◌↔◌, inl, inr, Bool-cases, text_eq,
}
use a2a_tokenized_provisioni.Base.Decimal.{Text, codes}
use a2a_tokenized_provisioni.Exec.{Result, ok, raised, unmapped_resource, Result-cases}
use a2a_tokenized_provisioni.Dict
use a2a_tokenized_provisioni.Interfaces.{
  ApplyResult, EntitlementView, SessionInfo, authorized, active,
}
use a2a_tokenized_provisioni.Interfaces.Ports.{EntitlementReader, NetworkProvisioner}
use a2a_tokenized_provisioni.Controller.Domain.{
  transition-authorize, transition-provision_ok, transition-provision_failed,
}
use a2a_tokenized_provisioni.Controller.Auth.{verify}
use a2a_tokenized_provisioni.Controller.Translators.{ProvisionerCall, translate, dispatch}
use a2a_tokenized_provisioni.Controller.Service.{Session, Service, Wiring, info, session_id, mapped}
use a2a_tokenized_provisioni.Controller.Activate.{
  new_session, authorize, abandon, provision, open_session, activate,
}
use a2a_tokenized_provisioni.Controller.Activate.Sound.{Authorized, authorize-Authorized}
use a2a_tokenized_provisioni.Controller.Activate.Outcome.{spent, authorize_returns}

-- The network answers every call, in order, that it was applied; `m` is the network after them.
abbrev pub Accepted :
    {N : Type 0} → NetworkProvisioner N → List ProvisionerCall → (n m : N) → Type 0
Accepted provisioner [] n m = m ≡ n
Accepted provisioner (call ∷ calls) n m =
    ((result : ApplyResult) × ((dispatch provisioner call n).0 ≡ ok result) × (result.ok ≡ true))
    × Accepted provisioner calls (dispatch provisioner call n).1 m

module _ {N : Type 0} (wiring : Wiring N) where
  abbrev Provisioned :
      Session → List ProvisionerCall → (s : Service N) → SessionInfo → Service N → Type 0
  Provisioned session calls s i t =
      (m : N) × Accepted wiring.provisioner calls s.net m
      × (i ≡ info (record session { state = active }))
      × (t ≡ record s {
        sessions = Dict.put s.sessions session.session_id (record session { state = active });
        net = m;
      })

  Provisioned-provision :
      (session : Session) (calls : List ProvisionerCall) (s : Service N) (i : SessionInfo)
      (t : Service N)
      → session.state ≡ authorized
      → provision wiring session calls s ≡ (ok i, t)
      → Provisioned session calls s i t
  unfolding provision abandon
  Provisioned-provision session [] s i t w h =
      let ends = rw (w, transition-provision_ok) at h in (s.net, refl, cc ends, cc ends)
  Provisioned-provision session (call ∷ calls) s i t w h =
      let n = (dispatch wiring.provisioner call s.net).1 in
      elim (Result-cases (dispatch wiring.provisioner call s.net).0) [
        | inl (r, p) ↦ elim (Bool-cases r.ok) [
          | inl good ↦
              let (m, accepted, x, y) =
                Provisioned-provision session calls (record s { net = n }) i t w
                  (rw (p, good) at h) in
              (m, ((r, p, good), accepted), x, y)
          | inr bad ↦ elim (Result-cases (wiring.provisioner.teardown session.session_id n).0) [
            | inl (u, q) ↦ absurd (cc (rw (p, bad, q, w, transition-provision_failed) at h))
            | inr (u, q) ↦ absurd (cc (rw (p, bad, q) at h))
          ]
        ]
        | inr (y, p) ↦ absurd (cc (rw p at h))
      ]

  provision-Provisioned :
      (session : Session) (calls : List ProvisionerCall) (s : Service N) (m : N)
      → session.state ≡ authorized
      → Accepted wiring.provisioner calls s.net m
      → provision wiring session calls s ≡ (
        ok (info (record session { state = active })),
        record s {
          sessions = Dict.put s.sessions session.session_id (record session { state = active });
          net = m;
        },
      )
  unfolding provision
  provision-Provisioned session [] s m w same = rw (same, w, transition-provision_ok) refl
  provision-Provisioned session (call ∷ calls) s m w ((r, p, good), accepted) =
      let n = (dispatch wiring.provisioner call s.net).1 in
      rw (p, good) (provision-Provisioned session calls (record s { net = n }) m w accepted)

mapped-eq-ok :
    (r : Result (List ProvisionerCall)) (calls : List ProvisionerCall)
    → mapped r ≡ ok calls
    → r ≡ ok calls
unfolding mapped
mapped-eq-ok (ok found) calls h = h
mapped-eq-ok (raised (unmapped_resource id)) calls h = absurd (cc)
mapped-eq-ok (raised _) calls h = absurd (cc)

module _ {N : Type 0} (wiring : Wiring N) (reader : EntitlementReader) (id : ℕ)
    (kind nonce signature : Text) (s : Service N) where
  -- What it takes that `activate` returns `i` and leaves `t`: the chain's answers at the call, an
  -- authorized proof, and calls of the network that are all applied, in their order.
  pub record Opens (i : SessionInfo) (t : Service N) : Type 0 where
    pub view : EntitlementView
    pub now : ℕ
    pub calls : List ProvisionerCall
    pub net : N
    pub authorized : Authorized wiring reader id kind nonce signature s view now
    pub translated : translate (session_id id s.seq) view wiring.resource_map ≡ ok calls
    pub accepted : Accepted wiring.provisioner calls s.net net
    pub answer : i ≡ record {
      session_id = session_id id s.seq;
      entitlement_id = id;
      state = active;
      since = now;
      expires_at = view.end_time;
    }
    pub after : t ≡ record {
      auth =
          (verify wiring.recover id nonce signature authorized.owner now
            (codes "activate")
            s.auth).1;
      sessions = Dict.put s.sessions (session_id id s.seq) (record {
        session_id = session_id id s.seq;
        entitlement_id = id;
        state = active;
        since = now;
        expires_at = view.end_time;
      });
      seq = s.seq + 1;
      net = net;
    }

  Opens-activate :
      (i : SessionInfo) (t : Service N)
      → activate wiring reader id kind nonce signature s ≡ (ok i, t)
      → Opens i t
  unfolding activate open_session mapped
  Opens-activate i t h = elim (Result-cases (authorize wiring reader id kind nonce signature s).0) [
    | inr (y, p) ↦ absurd (cc (rw p at h))
    | inl ((view, now), p) ↦
        let a = authorize-Authorized wiring reader id kind nonce signature s view now p in
        let e = authorize_returns wiring reader id kind nonce signature s view now a in
        let translation = translate (session_id id s.seq) view wiring.resource_map in
        elim (Result-cases (mapped translation)) [
          | inr (y, q) ↦ absurd (cc (rw (e, transition-authorize, q) at h))
          | inl (calls, q) ↦
              let (m, accepted, x, y) =
                Provisioned-provision wiring (new_session id s.seq view now authorized) calls
                  (record s {
                    auth = spent wiring reader id kind nonce signature s view now a;
                    seq = s.seq + 1;
                  })
                  i t refl (rw (e, transition-authorize, q) at h) in
              record {
                view = view;
                now = now;
                calls = calls;
                net = m;
                authorized = a;
                translated = mapped-eq-ok translation calls q;
                accepted = accepted;
                answer = x;
                after = y;
              }
        ]
  ]

  activate-Opens :
      (i : SessionInfo) (t : Service N)
      → Opens i t
      → activate wiring reader id kind nonce signature s ≡ (ok i, t)
  unfolding activate open_session mapped
  activate-Opens i t o =
      let u : Service N = record s {
        auth = spent wiring reader id kind nonce signature s o.view o.now o.authorized;
        seq = s.seq + 1;
      } in
      rw
        (
          authorize_returns wiring reader id kind nonce signature s o.view o.now o.authorized,
          transition-authorize,
          o.translated,
          provision-Provisioned wiring (new_session id s.seq o.view o.now authorized) o.calls u
              o.net refl o.accepted,
          o.answer,
          o.after,
        )
        refl

  -- An activation returns a session exactly when, by the chain as it is at the call, the owner
  -- signed the open nonce in time and the entitlement admits the action, its terms translate into
  -- calls, and the network applies each of them. The session has the next id and is active from
  -- the chain's time to the entitlement's end; the nonce and one number are spent, the session is
  -- stored, and the network is what the calls left.
  pub activate-ok_iff :
      (i : SessionInfo) (t : Service N)
      → (activate wiring reader id kind nonce signature s ≡ (ok i, t)) ↔ Opens i t
  activate-ok_iff i t = (Opens-activate i t, activate-Opens i t)
