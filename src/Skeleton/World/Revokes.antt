-- ===== src/Skeleton/World/Revokes.antt =====
-- worlds.py: after any script, a revocation ends the sessions of its token and no others.
use a2a_tokenized_provisioni.Base.{
  ℕ, ◌≡◌, refl, ◌≢◌, ap, ◌∙◌, sym, ◌↔◌, Bool, true, false, List, inl, inr, arith, nat_eq, text_eq,
  ◌==◌, nat_beq_iff, some,
}
use a2a_tokenized_provisioni.Base.Decimal.{Text}
use a2a_tokenized_provisioni.Exec.{Result, ok, raised-ne-ok}
use a2a_tokenized_provisioni.Dict
use a2a_tokenized_provisioni.Dict.{Dict, get-put_self}
use a2a_tokenized_provisioni.Interfaces.{EntitlementView, active}
use a2a_tokenized_provisioni.Netctl.Mock.{mock}
use a2a_tokenized_provisioni.Skeleton.Chain
use a2a_tokenized_provisioni.Skeleton.Chain.{FakeChain, get_entitlement, found}
use a2a_tokenized_provisioni.Skeleton.Chain.History.{by_revoke, Step-Extends, revoke-cases}
use a2a_tokenized_provisioni.Skeleton.Chain.Uses.{reader}
use a2a_tokenized_provisioni.Skeleton.Stub.{StubSession, on_revoked}
use a2a_tokenized_provisioni.Skeleton.Stub.Sweeps.{sweep-all, Decides}
use a2a_tokenized_provisioni.Skeleton.World.{MockWorld, new_world, Line, perform, revoke}
use a2a_tokenized_provisioni.Skeleton.World.Steps.{
  Mirrored, Extends-IsBacked, get_entitlement-some, perform-Mirrored, new_world-Mirrored,
}

of_token-false_iff : (a b : ℕ) → (◌≡◌ {A = Result Bool} (ok (a == b)) (ok false)) ↔ (a ≢ b)
of_token-false_iff a b = (
  λ h e. let p : (a == b) ≡ false = cc in ground (arith, nat_beq_iff a b, p, e),
  λ h. ap ok (ground (arith, nat_beq_iff a b, h)),
)

-- the callback, once the chain says that the token is revoked
on_revoked_lem :
    (w : MockWorld) (id : ℕ) (v : EntitlementView)
    → Mirrored w
    → get_entitlement w.chain id ≡ ok v
    → v.revoked ≡ true
    → let (r, s) = on_revoked mock (reader w.chain w.sound) id w.controller in
      (r ≡ ok tt)
      × ((sid : Text) (x : StubSession)
          → x.state ≡ active
          → (Dict.get s.sessions sid ≡ some x)
            ↔ ((Dict.get w.controller.sessions sid ≡ some x) × (x.entitlement_id ≢ id)))
unfolding on_revoked
on_revoked_lem w id v b token gone =
    let decides : Decides (λ x. ok (x.entitlement_id == id)) w.controller =
      λ k x h up. (x.entitlement_id == id, refl) in
    let (done, only) =
      sweep-all (λ x. ok (x.entitlement_id == id)) w.chain.entitlements w.controller b decides in
    rw (token, gone)
      (
        done,
        λ sid x up. (
          λ h. let (was, other) = (only sid x up).0 h in (was, (of_token-false_iff _ id).0 other),
          λ p. (only sid x up).1 (p.0, (of_token-false_iff _ id).1 p.1),
        ),
      )

-- what the chain's part leaves of the token
revoke-token :
    (c : FakeChain) (id : ℕ) (v : EntitlementView)
    → get_entitlement c id ≡ ok v
    → ((Chain.revoke id c).0 ≡ ok tt)
      × (get_entitlement (Chain.revoke id c).1 id ≡ ok (record v { revoked = true }))
unfolding get_entitlement found
revoke-token c id v token = elim (revoke-cases c id) [
  | inl (e, f) ↦ absurd (raised-ne-ok (rw e at token))
  | inr (u, e, f) ↦
      let p : some u ≡ some v = sym e ∙ get_entitlement-some c id v token in
      let q : u ≡ v = cc in
      let r = get-put_self c.entitlements id (record u { revoked = true }) in
      rw (f, r) (refl, ap (λ (z : EntitlementView). ok (record z { revoked = true })) q)
]

revoke_lem :
    (w : MockWorld) (id : ℕ) (v : EntitlementView)
    → Mirrored w
    → get_entitlement w.chain id ≡ ok v
    → let (r, t) = revoke id w in
      (r ≡ ok tt)
      × (get_entitlement t.chain id ≡ ok (record v { revoked = true }))
      × ((sid : Text) (x : StubSession)
          → x.state ≡ active
          → (Dict.get t.controller.sessions sid ≡ some x)
            ↔ ((Dict.get w.controller.sessions sid ≡ some x) × (x.entitlement_id ≢ id)))
unfolding revoke
revoke_lem w id v b token =
    let d = (Chain.revoke id w.chain).1 in
    let moved = Step-Extends (by_revoke {c = w.chain} id) w.sound in
    let w' : MockWorld = record w { chain = d; sound = moved.sound } in
    let b' = Extends-IsBacked w.chain d w.controller moved b in
    let (returned, marked) = revoke-token w.chain id v token in
    let (done, only) = on_revoked_lem w' id (record v { revoked = true }) b' marked refl in
    rw returned (done, marked, only)

-- After any script, a revocation of a token that exists returns, marks the token, and leaves, of
-- the active sessions, exactly those of other tokens.
pub revoke-perform :
    (lines : List Line) (id : ℕ) (v : EntitlementView)
    → get_entitlement (perform lines new_world).chain id ≡ ok v
    → let w = perform lines new_world in
      let (r, t) = revoke id w in
      (r ≡ ok tt)
      × (get_entitlement t.chain id ≡ ok (record v { revoked = true }))
      × ((sid : Text) (x : StubSession)
          → x.state ≡ active
          → (Dict.get t.controller.sessions sid ≡ some x)
            ↔ ((Dict.get w.controller.sessions sid ≡ some x) × (x.entitlement_id ≢ id)))
revoke-perform lines id v token =
    revoke_lem (perform lines new_world) id v (perform-Mirrored lines new_world new_world-Mirrored)
      token
