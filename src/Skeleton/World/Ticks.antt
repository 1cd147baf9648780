-- ===== src/Skeleton/World/Ticks.antt =====
-- worlds.py: after any script, a tick ends the sessions that are over and no others.
use a2a_tokenized_provisioni.Base.{
  ◌≡◌, ◌<◌, ◌≤◌, refl, ap, ◌∙◌, sym, ◌↔◌, Bool, false, none, some, List, inl, inr, arith, text_eq,
  nat_eq, leb,
}
use a2a_tokenized_provisioni.Base.Decimal.{Text}
use a2a_tokenized_provisioni.Exec.{Result, Result-cases, ok, raised-ne-ok}
use a2a_tokenized_provisioni.Dict
use a2a_tokenized_provisioni.Dict.{Dict, get-put_self}
use a2a_tokenized_provisioni.Interfaces.{EntitlementView, active}
use a2a_tokenized_provisioni.Netctl.Mock.{mock}
use a2a_tokenized_provisioni.Skeleton.Chain.{get_entitlement}
use a2a_tokenized_provisioni.Skeleton.Stub
use a2a_tokenized_provisioni.Skeleton.Stub.{StubController, StubSession, on_revoked, is_over}
use a2a_tokenized_provisioni.Skeleton.Stub.Sweeps.{sweep-all, Decides}
use a2a_tokenized_provisioni.Skeleton.World.{MockWorld, new_world, Line, perform, tick, provisioned}
use a2a_tokenized_provisioni.Skeleton.World.Steps.{
  Mirrored, get_entitlement-found, tick-Mirrored, perform-Mirrored, new_world-Mirrored,
}
use a2a_tokenized_provisioni.Skeleton.World.Mirrors.{provisioned-OnAir, off_air-cases}

-- the session's token ends later than now
abbrev pub Continues : MockWorld → StubSession → Type 0
Continues w x =
    (v : EntitlementView) × (get_entitlement w.chain x.entitlement_id ≡ ok v)
    × (w.chain.now < v.end_time)

is_over-false_iff :
    (w : MockWorld) (x : StubSession)
    → (is_over mock w.chain.now (get_entitlement w.chain x.entitlement_id) ≡ ok false)
      ↔ Continues w x
is_over-false_iff w x = (
  λ h. elim (Result-cases (get_entitlement w.chain x.entitlement_id)) [
    | inl (v, e) ↦
        let p : ◌≡◌ {A = Result Bool} (ok (leb v.end_time w.chain.now)) (ok false) = rw e at h in
        let q : leb v.end_time w.chain.now ≡ false = cc in (v, e, ground (arith, q))
    | inr (z, e) ↦ absurd (raised-ne-ok (rw e at h))
  ],
  λ (v, e, lt). rw e (ap ok (ground (arith, lt))),
)

module _ (w : MockWorld) (b : Mirrored w) where
  is_over-Decides :
      Decides
        (λ x. is_over mock w.chain.now (get_entitlement w.chain x.entitlement_id))
        w.controller
  is_over-Decides k x h up =
      let (v, cap, qos, token, terms, applied) = b.carried k x h up in
      (leb v.end_time w.chain.now, rw (get_entitlement-found w.chain x.entitlement_id v token) refl)

  -- what a tick does in any world that mirrors
  tick_lem :
      let (r, t) = tick w in
      (r ≡ ok tt)
      × ((sid : Text) (x : StubSession)
          → x.state ≡ active
          → (Dict.get t.controller.sessions sid ≡ some x)
            ↔ ((Dict.get w.controller.sessions sid ≡ some x) × Continues w x))
  unfolding tick Stub.tick
  tick_lem =
      let (done, only) =
        sweep-all (λ x. is_over mock w.chain.now (get_entitlement w.chain x.entitlement_id))
          w.chain.entitlements w.controller b is_over-Decides in
      (
        done,
        λ sid x up. (
          λ h. let (was, not_due) = (only sid x up).0 h in (was, (is_over-false_iff w x).0 not_due),
          λ p. (only sid x up).1 (p.0, (is_over-false_iff w x).1 p.1),
        ),
      )

  -- the world after the tick
  tick-off_air :
      (sid : Text) (x : StubSession) (v : EntitlementView)
      → Dict.get w.controller.sessions sid ≡ some x
      → get_entitlement w.chain x.entitlement_id ≡ ok v
      → v.end_time ≤ w.chain.now
      → provisioned sid (tick w).1 ≡ ok none
  tick-off_air sid x v there token past =
      let t = (tick w).1 in
      let b' : Mirrored t = tick-Mirrored w b in
      elim (off_air-cases t b' sid) [
        | inl e ↦ e
        | inr (cap, qos, e) ↦
            let (y, u, here, up, named, terms) = provisioned-OnAir t b' sid cap qos e in
            let (was, (u', token', lt)) = (tick_lem.1 sid y up).0 here in
            let p : some x ≡ some y = sym there ∙ was in
            let q : x ≡ y = cc in
            let r : ok v ≡ ok u' =
              sym token
              ∙ ap (λ (z : StubSession). get_entitlement w.chain z.entitlement_id) q
              ∙ token' in
            let s : v ≡ u' = cc in
            let l = ap (λ (z : EntitlementView). z.end_time) s in
            absurd (omega (arith, lt, past, l))
      ]

-- After any script, a tick returns and leaves, of the active sessions, exactly those whose token
-- ends later than the chain's time, and the network holds nothing for a session whose token's end
-- has come.
pub tick-perform :
    (lines : List Line)
    → let w = perform lines new_world in
      let (r, t) = tick w in
      (r ≡ ok tt)
      × ((sid : Text) (x : StubSession)
          → x.state ≡ active
          → (Dict.get t.controller.sessions sid ≡ some x)
            ↔ ((Dict.get w.controller.sessions sid ≡ some x) × Continues w x))
      × ((sid : Text) (x : StubSession) (v : EntitlementView)
          → Dict.get w.controller.sessions sid ≡ some x
          → get_entitlement w.chain x.entitlement_id ≡ ok v
          → v.end_time ≤ w.chain.now
          → provisioned sid t ≡ ok none)
tick-perform lines =
    let w = perform lines new_world in
    let b = perform-Mirrored lines new_world new_world-Mirrored in
    let (done, only) = tick_lem w b in (done, only, tick-off_air w b)
