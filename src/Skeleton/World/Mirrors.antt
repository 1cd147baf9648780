-- ===== src/Skeleton/World/Mirrors.antt =====
-- worlds.py: after any script the network mirrors the sessions.
use a2a_tokenized_provisioni.Base.{
  ℕ, ◌≡◌, refl, ◌≢◌, ap, ◌∙◌, sym, ◌↔◌, true, Option, none, some, List, inl, inr, Option-cases,
  text_eq, nat_eq, ◌⊎◌,
}
use a2a_tokenized_provisioni.Base.Decimal.{Text}
use a2a_tokenized_provisioni.Exec.{Result, ok, raised-ne-ok}
use a2a_tokenized_provisioni.Dict
use a2a_tokenized_provisioni.Dict.{Dict, get-nil}
use a2a_tokenized_provisioni.Interfaces.{EntitlementView, SessionState, bandwidth_params, active}
use a2a_tokenized_provisioni.Skeleton.Chain.{get_entitlement}
use a2a_tokenized_provisioni.Skeleton.Stub
use a2a_tokenized_provisioni.Skeleton.Stub.{StubController, StubSession, on_revoked, sweep}
use a2a_tokenized_provisioni.Skeleton.World.Steps.{
  Mirrored, get_entitlement-some, get_entitlement-found, perform-Mirrored, new_world-Mirrored,
}
use a2a_tokenized_provisioni.Skeleton.World.{
  MockWorld, new_world, Line, perform, provisioned, terms_of, is_torn_down, absent, state_of,
}

-- A session is active for a token with these terms.
abbrev pub OnAir : MockWorld → (sid : Text) (capacity_bps qos_class : ℕ) → Type 0
OnAir w sid capacity_bps qos_class =
    (x : StubSession) × (v : EntitlementView) × (Dict.get w.controller.sessions sid ≡ some x)
    × (x.state ≡ active)
    × (get_entitlement w.chain x.entitlement_id ≡ ok v)
    × (v.params ≡ bandwidth_params capacity_bps qos_class)

-- What the network and the sessions have to do with each other.
pub record Mirrors (w : MockWorld) : Type 0 where
  -- `provisioned` returns terms exactly for the active sessions, the terms of their tokens
  pub on_air :
      (sid : Text) (capacity_bps qos_class : ℕ)
      → (provisioned sid w ≡ ok (some (capacity_bps, qos_class)))
        ↔ OnAir w sid capacity_bps qos_class
  -- and returns none else, without raising
  pub off_air :
      (sid : Text)
      → (provisioned sid w ≡ ok none)
        ⊎ ((capacity_bps : ℕ) × (qos_class : ℕ) × (provisioned sid w
              ≡ ok (some (capacity_bps, qos_class))))
  -- a session in any other state has been torn down
  pub over :
      (sid : Text) (state : SessionState)
      → state_of sid w ≡ ok state
      → state ≢ active
      → is_torn_down sid w ≡ true
  -- no token has two active sessions
  pub single :
      (sid other : Text) (x y : StubSession)
      → Dict.get w.controller.sessions sid ≡ some x
      → Dict.get w.controller.sessions other ≡ some y
      → x.state ≡ active
      → y.state ≡ active
      → x.entitlement_id ≡ y.entitlement_id
      → sid ≡ other

module _ (w : MockWorld) (b : Mirrored w) where
  pub provisioned-OnAir :
      (sid : Text) (capacity_bps qos_class : ℕ)
      → provisioned sid w ≡ ok (some (capacity_bps, qos_class))
      → OnAir w sid capacity_bps qos_class
  unfolding provisioned terms_of
  provisioned-OnAir sid capacity_bps qos_class h =
      elim (Option-cases (Dict.get w.controller.net.applied sid)) [
        | inl e ↦ absurd (cc (rw e at h))
        | inr (a, e) ↦
            let (x, there, up) = b.only sid a e in
            let (v, cap, qos, token, terms, applied) = b.carried sid x there up in
            let p : ◌≡◌ {A = Result (Option (ℕ × ℕ))} (ok (some (cap, qos)))
                (ok (some (capacity_bps, qos_class))) =
              rw applied at h in
            (x, v, there, up, get_entitlement-found w.chain x.entitlement_id v token, terms ∙ (cc))
      ]

  OnAir-provisioned :
      (sid : Text) (capacity_bps qos_class : ℕ)
      → OnAir w sid capacity_bps qos_class
      → provisioned sid w ≡ ok (some (capacity_bps, qos_class))
  unfolding provisioned terms_of
  OnAir-provisioned sid capacity_bps qos_class (x, v, there, up, token, terms) =
      let (v', cap, qos, token', terms', applied) = b.carried sid x there up in
      let same : some v ≡ some v' =
        sym (get_entitlement-some w.chain x.entitlement_id v token) ∙ token' in
      let p : v ≡ v' = cc in
      let q : bandwidth_params cap qos ≡ bandwidth_params capacity_bps qos_class =
        sym terms' ∙ ap (λ (z : EntitlementView). z.params) (sym p) ∙ terms in
      rw applied (cc)

  pub off_air-cases :
      (sid : Text)
      → (provisioned sid w ≡ ok none)
        ⊎ ((capacity_bps : ℕ) × (qos_class : ℕ) × (provisioned sid w
              ≡ ok (some (capacity_bps, qos_class))))
  unfolding provisioned terms_of
  off_air-cases sid = elim (Option-cases (Dict.get w.controller.net.applied sid)) [
    | inl e ↦ inl (rw e refl)
    | inr (a, e) ↦
        let (x, there, up) = b.only sid a e in
        let (v, cap, qos, token, terms, applied) = b.carried sid x there up in
        inr (cap, qos, rw applied refl)
  ]

  over-torn_down :
      (sid : Text) (state : SessionState)
      → state_of sid w ≡ ok state
      → state ≢ active
      → is_torn_down sid w ≡ true
  unfolding state_of Stub.state_of Stub.found_state is_torn_down absent
  over-torn_down sid state h down = elim (Option-cases (Dict.get w.controller.sessions sid)) [
    | inl e ↦ absurd (raised-ne-ok (rw e at h))
    | inr (x, e) ↦
        let p : ok x.state ≡ ok state = rw e at h in
        let q : x.state ≡ state = cc in
        let (listed, gone) = b.ended sid x e (λ up. down (sym q ∙ up)) in rw (listed, gone) refl
  ]

  pub Mirrored-Mirrors : Mirrors w
  Mirrored-Mirrors = record {
    on_air = λ sid capacity_bps qos_class. (
      provisioned-OnAir sid capacity_bps qos_class,
      OnAir-provisioned sid capacity_bps qos_class,
    );
    off_air = off_air-cases;
    over = over-torn_down;
    single = b.single;
  }

-- After any script from a new world, whatever its lines raised, the network holds exactly the
-- active sessions, each with the terms of its token, every other session has been torn down, and
-- no token has two active sessions.
pub perform-Mirrors : (lines : List Line) → Mirrors (perform lines new_world)
perform-Mirrors lines =
    Mirrored-Mirrors (perform lines new_world) (perform-Mirrored lines new_world new_world-Mirrored)
