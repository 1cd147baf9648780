-- ===== src/Skeleton/Stub/Backed.antt =====
-- stub_controller.py over the recording network: what holds of its sessions and of the network
-- between two calls, and that the opening and the end of a session keep it.
use a2a_tokenized_provisioni.Base.{
  ℕ, ◌≡◌, refl, ◌≢◌, sym, ap, ◌∙◌, true, false, none, some, [], ◌∷◌, elem, inl, inr, arith, text_eq,
  nat_eq, nat_beq_iff,
}
use a2a_tokenized_provisioni.Base.Decimal.{Text}
use a2a_tokenized_provisioni.Dict
use a2a_tokenized_provisioni.Dict.{
  Dict, get-put_self, get-put_ne, put-cases, get-remove_self, get-remove_ne,
}
use a2a_tokenized_provisioni.Interfaces.{EntitlementView, bandwidth_params, active}
use a2a_tokenized_provisioni.Interfaces.Fixtures.{resolved_path}
use a2a_tokenized_provisioni.Controller.Domain.{state_eq, state_beq_iff}
use a2a_tokenized_provisioni.Netctl.Mock.{MockNet, Applied, bandwidth}
use a2a_tokenized_provisioni.Skeleton.Stub.{StubController, StubSession, booked_ids}

-- The network holds the terms of a token for a session.
abbrev pub Carried : Dict ℕ EntitlementView → MockNet → (sid : Text) → (id : ℕ) → Type 0
Carried tokens net sid id =
    (v : EntitlementView) × (capacity_bps : ℕ) × (qos_class : ℕ) × (Dict.get tokens id ≡ some v)
    × (v.params ≡ bandwidth_params capacity_bps qos_class)
    × (Dict.get net.applied sid ≡ some (bandwidth resolved_path capacity_bps qos_class))

-- The network holds nothing for a session, and has torn it down.
abbrev pub Released : MockNet → (sid : Text) → Type 0
Released net sid = (elem sid net.torn_down ≡ true) × (Dict.get net.applied sid ≡ none)

pub record IsBacked (tokens : Dict ℕ EntitlementView) (s : StubController MockNet) : Type 0 where
  pub named : (k : Text) (x : StubSession) → Dict.get s.sessions k ≡ some x → x.session_id ≡ k
  pub carried :
      (k : Text) (x : StubSession)
      → Dict.get s.sessions k ≡ some x
      → x.state ≡ active
      → Carried tokens s.net k x.entitlement_id
  pub ended :
      (k : Text) (x : StubSession)
      → Dict.get s.sessions k ≡ some x
      → x.state ≢ active
      → Released s.net k
  -- the network holds nothing else
  pub only :
      (k : Text) (a : Applied)
      → Dict.get s.net.applied k ≡ some a
      → (x : StubSession) × (Dict.get s.sessions k ≡ some x) × (x.state ≡ active)
  pub single :
      (k j : Text) (x y : StubSession)
      → Dict.get s.sessions k ≡ some x
      → Dict.get s.sessions j ≡ some y
      → x.state ≡ active
      → y.state ≡ active
      → x.entitlement_id ≡ y.entitlement_id
      → k ≡ j

-- An entitlement that is not booked has no active session.
pub booked_ids-unbooked :
    (d : Dict Text StubSession) (id : ℕ) (k : Text) (x : StubSession)
    → elem id (booked_ids d) ≡ false
    → Dict.get d k ≡ some x
    → x.state ≡ active
    → x.entitlement_id ≢ id
unfolding booked_ids Dict.get
booked_ids-unbooked [] id k x h e a = absurd (cc)
booked_ids-unbooked ((j, y) ∷ d) id k x h e a = ground (
  arith,
  booked_ids-unbooked d id k x,
  state_beq_iff y.state active,
  nat_beq_iff y.entitlement_id id,
  nat_beq_iff x.entitlement_id id,
)

-- A session opens under `sid` for a token with bandwidth terms, which are applied.
pub IsBacked-open :
    (tokens : Dict ℕ EntitlementView) (s : StubController MockNet) (sid : Text) (id : ℕ)
    (v : EntitlementView) (capacity_bps qos_class : ℕ)
    → IsBacked tokens s
    → Dict.get tokens id ≡ some v
    → v.params ≡ bandwidth_params capacity_bps qos_class
    → elem id (booked_ids s.sessions) ≡ false
    → IsBacked tokens (record s {
      sessions =
          Dict.put s.sessions sid
            (record { session_id = sid; entitlement_id = id; state = active });
      net = record s.net {
        applied = Dict.put s.net.applied sid (bandwidth resolved_path capacity_bps qos_class);
      };
    })
IsBacked-open tokens s sid id v capacity_bps qos_class b there terms unbooked =
    let new : StubSession = record { session_id = sid; entitlement_id = id; state = active } in
    let a = bandwidth resolved_path capacity_bps qos_class in
    record {
      named = λ k x h. elim (put-cases s.sessions sid k new x h) [
        | inl (e, f) ↦ ap (λ (z : StubSession). z.session_id) (sym f) ∙ e
        | inr (e, f) ↦ b.named k x f
      ];
      carried = λ k x h up. elim (put-cases s.sessions sid k new x h) [
        | inl (e, f) ↦ (
          v,
          capacity_bps,
          qos_class,
          ap (λ (z : StubSession). Dict.get tokens z.entitlement_id) (sym f) ∙ there,
          terms,
          ap (λ j. Dict.get (Dict.put s.net.applied sid a) j) (sym e)
              ∙ get-put_self s.net.applied sid a,
        )
        | inr (e, f) ↦
            let (w, cap, qos, p, q, r) = b.carried k x f up in
            (w, cap, qos, p, q, get-put_ne s.net.applied sid k a e ∙ r)
      ];
      ended = λ k x h down. elim (put-cases s.sessions sid k new x h) [
        | inl (e, f) ↦ absurd (down (ap (λ (z : StubSession). z.state) (sym f)))
        | inr (e, f) ↦
            let (p, q) = b.ended k x f down in (p, get-put_ne s.net.applied sid k a e ∙ q)
      ];
      only = λ k c h. elim (put-cases s.net.applied sid k a c h) [
        | inl (e, f) ↦ (
          new,
          ap (λ j. Dict.get (Dict.put s.sessions sid new) j) (sym e)
              ∙ get-put_self s.sessions sid new,
          refl,
        )
        | inr (e, f) ↦
            let (x, p, up) = b.only k c f in (x, get-put_ne s.sessions sid k new e ∙ p, up)
      ];
      single = λ k j x y hx hy ux uy same. elim (put-cases s.sessions sid k new x hx) [
        | inl (e, f) ↦ elim (put-cases s.sessions sid j new y hy) [
          | inl (e', f') ↦ sym e ∙ e'
          | inr (e', f') ↦ absurd (
              booked_ids-unbooked s.sessions id j y unbooked f' uy
                (sym same ∙ ap (λ (z : StubSession). z.entitlement_id) (sym f)))
        ]
        | inr (e, f) ↦ elim (put-cases s.sessions sid j new y hy) [
          | inl (e', f') ↦ absurd (
              booked_ids-unbooked s.sessions id k x unbooked f ux
                (same ∙ ap (λ (z : StubSession). z.entitlement_id) (sym f')))
          | inr (e', f') ↦ b.single k j x y f f' ux uy same
        ]
      ];
    }
