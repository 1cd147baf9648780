-- ===== src/Skeleton/World/Steps.antt =====
-- worlds.py: each line of a script keeps what holds between the sessions and the network.
use a2a_tokenized_provisioni.Base.{
  ℕ, ◌≡◌, refl, ap, ◌∙◌, true, some, List, [], ◌∷◌, inl, inr, Option-cases, Bool-cases, text_eq,
  nat_eq,
}
use a2a_tokenized_provisioni.Exec.{Result-cases, ok, raised-ne-ok}
use a2a_tokenized_provisioni.Dict
use a2a_tokenized_provisioni.Dict.{Dict, get-nil}
use a2a_tokenized_provisioni.Interfaces.{EntitlementView}
use a2a_tokenized_provisioni.Netctl.Mock.{MockNet, Applied, mock}
use a2a_tokenized_provisioni.Skeleton.Chain
use a2a_tokenized_provisioni.Skeleton.Chain.{FakeChain, get_entitlement, found}
use a2a_tokenized_provisioni.Skeleton.Chain.History.{
  Extends, by_fulfill, by_revoke, by_advance, Step-Extends,
}
use a2a_tokenized_provisioni.Skeleton.Chain.Uses.{reader}
use a2a_tokenized_provisioni.Skeleton.Stub
use a2a_tokenized_provisioni.Skeleton.Stub.{StubController, StubSession, on_revoked, sweep}
use a2a_tokenized_provisioni.Skeleton.Stub.Backed.{IsBacked}
use a2a_tokenized_provisioni.Skeleton.Stub.Opens.{IsBacked-count, activate-IsBacked}
use a2a_tokenized_provisioni.Skeleton.Stub.Ends.{IsBacked-ended, teardown_lem}
use a2a_tokenized_provisioni.Skeleton.Stub.Sweeps.{sweep-IsBacked}
use a2a_tokenized_provisioni.Skeleton.World.{
  MockWorld, new_world, Line, buys, asks, activates, tears_down, ticks, revokes, waits, play,
  perform, fulfill, challenge, activate, teardown, tick, revoke, advance_time,
}

-- what holds of a world between two lines
abbrev pub Mirrored : MockWorld → Type 0
Mirrored w = IsBacked w.chain.entitlements w.controller

-- The chain moves, and its tokens keep their terms.
pub Extends-IsBacked :
    (c d : FakeChain) (s : StubController MockNet)
    → Extends c d
    → IsBacked c.entitlements s
    → IsBacked d.entitlements s
Extends-IsBacked c d s moved b = record {
  named = b.named;
  carried = λ k x h up.
      let (v, cap, qos, p, q, r) = b.carried k x h up in
      elim (moved.terms x.entitlement_id v p) [
        | inl e ↦ (v, cap, qos, e, q, r)
        | inr e ↦ (record v { revoked = true }, cap, qos, e, q, r)
      ];
  ended = b.ended;
  only = b.only;
  single = b.single;
}

pub get_entitlement-some :
    (c : FakeChain) (i : ℕ) (v : EntitlementView)
    → get_entitlement c i ≡ ok v
    → Dict.get c.entitlements i ≡ some v
unfolding get_entitlement found
get_entitlement-some c i v h = elim (Option-cases (Dict.get c.entitlements i)) [
  | inl e ↦ absurd (raised-ne-ok (rw e at h))
  | inr (w, e) ↦ let q : w ≡ v = cc in e ∙ ap some q
]

on_revoked-IsBacked :
    (w : MockWorld) (id : ℕ)
    → Mirrored w
    → IsBacked w.chain.entitlements (on_revoked mock (reader w.chain w.sound) id w.controller).1
unfolding on_revoked
on_revoked-IsBacked w id b = elim (Result-cases (get_entitlement w.chain id)) [
  | inr (x, e) ↦ rw e b
  | inl (v, e) ↦ elim (Bool-cases v.revoked) [
    | inr kept ↦ rw (e, kept) b
    | inl gone ↦
        rw (e, gone)
          (sweep-IsBacked _ w.chain.entitlements (Dict.keys w.controller.sessions) w.controller b)
  ]
]

revoke-Mirrored : (w : MockWorld) (id : ℕ) → Mirrored w → Mirrored (revoke id w).1
unfolding revoke
revoke-Mirrored w id b =
    let d = (Chain.revoke id w.chain).1 in
    let moved = Step-Extends (by_revoke {c = w.chain} id) w.sound in
    let w' : MockWorld = record w { chain = d; sound = moved.sound } in
    let b' = Extends-IsBacked w.chain d w.controller moved b in
    elim (Result-cases (Chain.revoke id w.chain).0) [
      | inr (x, e) ↦ rw e b'
      | inl (u, e) ↦ rw e (on_revoked-IsBacked w' id b')
    ]

pub tick-Mirrored : (w : MockWorld) → Mirrored w → Mirrored (tick w).1
unfolding tick Stub.tick
tick-Mirrored w b =
    sweep-IsBacked _ w.chain.entitlements (Dict.keys w.controller.sessions) w.controller b

play-Mirrored : (line : Line) (w : MockWorld) → Mirrored w → Mirrored (play line w)
unfolding play fulfill challenge activate teardown advance_time Stub.challenge
play-Mirrored (buys signed buyer) w b =
    Extends-IsBacked w.chain _ w.controller (Step-Extends (by_fulfill signed buyer) w.sound) b
play-Mirrored (asks id) w b =
    IsBacked-count w.chain.entitlements w.controller _ _ w.controller.session_seq b
play-Mirrored (activates id requester nonce) w b =
    activate-IsBacked (reader w.chain w.sound) w.chain.entitlements (get_entitlement-some w.chain)
      id requester nonce w.controller b
play-Mirrored (tears_down sid) w b =
    rw (teardown_lem sid w.controller) (IsBacked-ended w.chain.entitlements sid w.controller b)
play-Mirrored ticks w b = tick-Mirrored w b
play-Mirrored (revokes id) w b = revoke-Mirrored w id b
play-Mirrored (waits seconds) w b =
    Extends-IsBacked w.chain _ w.controller (Step-Extends (by_advance seconds) w.sound) b

pub perform-Mirrored : (lines : List Line) (w : MockWorld) → Mirrored w → Mirrored (perform lines w)
unfolding perform
perform-Mirrored [] w b = b
perform-Mirrored (line ∷ lines) w b = perform-Mirrored lines (play line w) (play-Mirrored line w b)

pub new_world-Mirrored : Mirrored new_world
new_world-Mirrored = record {
  named = λ k x h. absurd (cc (get-nil {V = StubSession} k));
  carried = λ k x h up. absurd (cc (get-nil {V = StubSession} k));
  ended = λ k x h down. absurd (cc (get-nil {V = StubSession} k));
  only = λ k a h. absurd (cc (get-nil {V = Applied} k));
  single = λ k j x y hx hy ux uy same. absurd (cc (get-nil {V = StubSession} k));
}

pub get_entitlement-found :
    (c : FakeChain) (i : ℕ) (v : EntitlementView)
    → Dict.get c.entitlements i ≡ some v
    → get_entitlement c i ≡ ok v
unfolding get_entitlement found
get_entitlement-found c i v h = rw h refl
