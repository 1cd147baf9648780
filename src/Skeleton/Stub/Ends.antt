-- ===== src/Skeleton/Stub/Ends.antt =====
-- stub_controller.py over the recording network: what `teardown` leaves, of any session or of none.
use a2a_tokenized_provisioni.Base.{
  ℕ, ◌≡◌, refl, ◌≢◌, sym, ap, ◌∙◌, true, Option, none, some, List, [], ◌∷◌, ◌++◌, ◌==◌, ◌⊎◌,
  if◌then◌else◌, elem, inl, inr, Bool-cases, arith, text_eq, nat_eq, text_beq_iff, text_beq,
}
use a2a_tokenized_provisioni.Base.Decimal.{Text}
use a2a_tokenized_provisioni.Exec.{ok}
use a2a_tokenized_provisioni.Dict
use a2a_tokenized_provisioni.Dict.{
  Dict, get-put_self, get-put_ne, put-cases, get-remove_self, get-remove_ne,
}
use a2a_tokenized_provisioni.Interfaces.{EntitlementView, active, torn_down}
use a2a_tokenized_provisioni.Controller.Domain.{state_eq, state_beq_iff}
use a2a_tokenized_provisioni.Netctl.Mock
use a2a_tokenized_provisioni.Netctl.Mock.{MockNet, Applied, bandwidth, mock, fine}
use a2a_tokenized_provisioni.Skeleton.Stub.{StubController, StubSession, mark_down, teardown}
use a2a_tokenized_provisioni.Skeleton.Stub.Laws.{teardown-eq}
use a2a_tokenized_provisioni.Skeleton.Stub.Backed.{IsBacked}

remove-cases :
    (d : Dict Text Applied) (sid k : Text) (a : Applied)
    → Dict.get (Dict.remove d sid) k ≡ some a
    → (sid ≢ k) × (Dict.get d k ≡ some a)
remove-cases d sid k a h = elim (Bool-cases (text_beq sid k)) [
  | inl same ↦
      let e = (text_beq_iff sid k).0 same in
      let p = get-remove_self d sid in
      let q = ap (λ j. Dict.get (Dict.remove d sid) j) e ∙ h in absurd (cc)
  | inr other ↦
      let e : sid ≢ k = λ e. ground (arith, text_beq_iff sid k, other, e) in
      (e, sym (get-remove_ne d sid k e) ∙ h)
]

-- what the end of `teardown` leaves of the sessions, by what they hold
abbrev pub downed_at :
    (sid : Text) → Dict Text StubSession → Option StubSession → Dict Text StubSession
downed_at sid d none = d
downed_at sid d (some x) =
    if x.state == torn_down then d else Dict.put d sid (record x { state = torn_down })

abbrev pub downed : Text → Dict Text StubSession → Dict Text StubSession
downed sid d = downed_at sid d (Dict.get d sid)

-- what `teardown` leaves of the stub
abbrev pub ended_as : Text → StubController MockNet → StubController MockNet
ended_as sid s = record s {
  sessions = downed sid s.sessions;
  net = record { applied = Dict.remove s.net.applied sid; torn_down = s.net.torn_down ++ sid ∷ [] };
}

mark_down_lem :
    (sid : Text) (found : Option StubSession) (s : StubController MockNet)
    → mark_down mock sid found s ≡ (ok tt, record s { sessions = downed_at sid s.sessions found })
unfolding mark_down
mark_down_lem sid none s = refl
mark_down_lem sid (some x) s = elim (Bool-cases (x.state == torn_down)) [
  | inl down ↦ rw down refl
  | inr up ↦ rw up refl
]

pub teardown_lem :
    (sid : Text) (s : StubController MockNet) → teardown mock sid s ≡ (ok tt, ended_as sid s)
unfolding Mock.teardown
teardown_lem sid s =
    teardown-eq mock sid s fine refl
    ∙ mark_down_lem sid (Dict.get s.sessions sid) (record s { net = (Mock.teardown sid s.net).1 })

get-downed_at :
    (d : Dict Text StubSession) (sid k : Text) (found : Option StubSession)
    → sid ≢ k
    → Dict.get (downed_at sid d found) k ≡ Dict.get d k
get-downed_at d sid k none h = refl
get-downed_at d sid k (some x) h = elim (Bool-cases (x.state == torn_down)) [
  | inl down ↦ rw down refl
  | inr up ↦ rw up (get-put_ne d sid k (record x { state = torn_down }) h)
]

pub get-downed_ne :
    (d : Dict Text StubSession) (sid k : Text) → sid ≢ k → Dict.get (downed sid d) k ≡ Dict.get d k
get-downed_ne d sid k h = get-downed_at d sid k (Dict.get d sid) h

-- a session under its key, which has been ended
abbrev pub Downed : Dict Text StubSession → Text → StubSession → Type 0
Downed d sid y =
    (x : StubSession) × (Dict.get d sid ≡ some x)
    × (y.session_id ≡ x.session_id)
    × (y.state ≡ torn_down)

downed_at-Downed :
    (d : Dict Text StubSession) (sid : Text) (found : Option StubSession) (y : StubSession)
    → Dict.get d sid ≡ found
    → Dict.get (downed_at sid d found) sid ≡ some y
    → Downed d sid y
downed_at-Downed d sid none y e h = absurd (cc)
downed_at-Downed d sid (some x) y e h = elim (Bool-cases (x.state == torn_down)) [
  | inl down ↦
      let p : some x ≡ some y = sym e ∙ (rw down at h) in
      let q : x ≡ y = cc in
      (
        x,
        e,
        ap (λ (z : StubSession). z.session_id) (sym q),
        ap (λ (z : StubSession). z.state) (sym q) ∙ (state_beq_iff x.state torn_down).0 down,
      )
  | inr up ↦
      let z : StubSession = record x { state = torn_down } in
      let p : some z ≡ some y = sym (get-put_self d sid z) ∙ (rw up at h) in
      let q : z ≡ y = cc in
      (
        x,
        e,
        ap (λ (z : StubSession). z.session_id) (sym q),
        ap (λ (z : StubSession). z.state) (sym q),
      )
]

pub downed-Downed :
    (d : Dict Text StubSession) (sid : Text) (y : StubSession)
    → Dict.get (downed sid d) sid ≡ some y
    → Downed d sid y
downed-Downed d sid y h = downed_at-Downed d sid (Dict.get d sid) y refl h

-- A session of the new sessions is an old one under another key, or the one that was ended.
pub downed-cases :
    (d : Dict Text StubSession) (sid k : Text) (y : StubSession)
    → Dict.get (downed sid d) k ≡ some y
    → ((sid ≡ k) × Downed d sid y) ⊎ ((sid ≢ k) × (Dict.get d k ≡ some y))
downed-cases d sid k y h = elim (Bool-cases (text_beq sid k)) [
  | inl same ↦
      let e = (text_beq_iff sid k).0 same in
      inl (e, downed-Downed d sid y (ap (λ j. Dict.get (downed sid d) j) e ∙ h))
  | inr other ↦
      let e : sid ≢ k = λ e. ground (arith, text_beq_iff sid k, other, e) in
      inr (e, sym (get-downed_ne d sid k e) ∙ h)
]

elem-append_left : (k : Text) (l m : List Text) → elem k l ≡ true → elem k (l ++ m) ≡ true
elem-append_left k [] m h = absurd (cc)
elem-append_left k (x ∷ l) m h = ground (arith, elem-append_left k l m)

elem-append_last : (k : Text) (l : List Text) → elem k (l ++ k ∷ []) ≡ true
elem-append_last k [] = ground (arith, text_beq_iff k k)
elem-append_last k (x ∷ l) = ground (arith, elem-append_last k l)

pub down-ne-up : (y : StubSession) → y.state ≡ torn_down → y.state ≢ active
down-ne-up y down up = ground (arith, state_beq_iff torn_down active, sym down ∙ up)

-- The end of a session, or of no session at all.
pub IsBacked-ended :
    (tokens : Dict ℕ EntitlementView) (sid : Text) (s : StubController MockNet)
    → IsBacked tokens s
    → IsBacked tokens (ended_as sid s)
IsBacked-ended tokens sid s b = record {
  named = λ k y h. elim (downed-cases s.sessions sid k y h) [
    | inl (e, (x, p, q, r)) ↦ q ∙ b.named sid x p ∙ e
    | inr (e, f) ↦ b.named k y f
  ];
  carried = λ k y h up. elim (downed-cases s.sessions sid k y h) [
    | inl (e, (x, p, q, r)) ↦ absurd (down-ne-up y r up)
    | inr (e, f) ↦
        let (w, cap, qos, p, q, r) = b.carried k y f up in
        (w, cap, qos, p, q, get-remove_ne s.net.applied sid k e ∙ r)
  ];
  ended = λ k y h down. elim (downed-cases s.sessions sid k y h) [
    | inl (e, (x, p, q, r)) ↦ (
      ap (λ j. elem j (s.net.torn_down ++ sid ∷ [])) (sym e) ∙ elem-append_last sid s.net.torn_down,
      ap (λ j. Dict.get (Dict.remove s.net.applied sid) j) (sym e)
          ∙ get-remove_self s.net.applied sid,
    )
    | inr (e, f) ↦
        let (p, q) = b.ended k y f down in
        (elem-append_left k s.net.torn_down (sid ∷ []) p, get-remove_ne s.net.applied sid k e ∙ q)
  ];
  only = λ k a h.
      let (e, f) = remove-cases s.net.applied sid k a h in
      let (x, p, up) = b.only k a f in (x, get-downed_ne s.sessions sid k e ∙ p, up);
  single = λ k j x y hx hy ux uy same. elim (downed-cases s.sessions sid k x hx) [
    | inl (e, (z, p, q, r)) ↦ absurd (down-ne-up x r ux)
    | inr (e, f) ↦ elim (downed-cases s.sessions sid j y hy) [
      | inl (e', (z, p, q, r)) ↦ absurd (down-ne-up y r uy)
      | inr (e', f') ↦ b.single k j x y f f' ux uy same
    ]
  ];
}
