-- ===== src/Controller/Teardown/Sound.antt =====
-- service.py: what one teardown does, and that it keeps the sessions sound.
use a2a_tokenized_provisioni.Base.{◌≡◌, refl, ◌≢◌, none, some, inl, inr, Option-cases, text_eq}
use a2a_tokenized_provisioni.Base.Decimal.{Text, codes}
use a2a_tokenized_provisioni.Exec.{ok, Result-cases}
use a2a_tokenized_provisioni.Dict
use a2a_tokenized_provisioni.Dict.{get-put_self}
use a2a_tokenized_provisioni.Dict.Unique.{put-put_self}
use a2a_tokenized_provisioni.Interfaces.{
  ApplyResult, SessionInfo, SessionState, requested, authorized, active, torn_down, failed,
}
use a2a_tokenized_provisioni.Interfaces.Ports.{TeardownReturns}
use a2a_tokenized_provisioni.Controller.Domain.{transition, transition-teardown}
use a2a_tokenized_provisioni.Controller.Service.{Session, Service, Wiring, info, no_session}
use a2a_tokenized_provisioni.Controller.Sessions.{Settled, IsSound, IsSound-put_end}
use a2a_tokenized_provisioni.Controller.Teardown.{teardown}

-- Where a teardown leaves a session at rest.
abbrev pub end_state : SessionState → SessionState
end_state active = torn_down
end_state t = t

pub transition-end_state :
    (t : SessionState)
    → Settled t
    → (transition t (codes "teardown") ≡ ok (end_state t))
      × Settled (end_state t)
      × (end_state t ≢ active)
      × (end_state (end_state t) ≡ end_state t)
transition-end_state requested h = absurd h
transition-end_state authorized h = absurd h
transition-end_state active h = (transition-teardown active, tt, λ e. cc, refl)
transition-end_state torn_down h = (transition-teardown torn_down, tt, λ e. cc, refl)
transition-end_state failed h = (transition-teardown failed, tt, λ e. cc, refl)

-- A session after its teardown.
abbrev pub ended : Session → Session
ended x = record x { state = end_state x.state }

module _ {N : Type 0} (wiring : Wiring N) (sid : Text) (s : Service N) where
  -- the network after the provisioner was told to tear down
  abbrev pub cleared : N
  cleared = (wiring.provisioner.teardown sid s.net).1

  pub teardown-unknown :
      (r : ApplyResult)
      → (wiring.provisioner.teardown sid s.net).0 ≡ ok r
      → Dict.get s.sessions sid ≡ none
      → teardown wiring sid s ≡ (ok (no_session sid), record s { net = cleared })
  unfolding teardown
  teardown-unknown r p e = rw (e, p)

  pub teardown-known :
      (r : ApplyResult) (x : Session)
      → (wiring.provisioner.teardown sid s.net).0 ≡ ok r
      → Dict.get s.sessions sid ≡ some x
      → Settled x.state
      → teardown wiring sid s ≡ (
        ok (info (ended x)),
        record s { sessions = Dict.put s.sessions sid (ended x); net = cleared },
      )
  unfolding teardown
  teardown-known r x p e h = rw (e, p, (transition-end_state x.state h).0)

  -- A teardown keeps the sessions sound, also where the provisioner raises.
  pub teardown-IsSound :
      IsSound s.sessions s.seq → let t = (teardown wiring sid s).1 in IsSound t.sessions t.seq
  unfolding teardown
  teardown-IsSound sound = elim (Result-cases (wiring.provisioner.teardown sid s.net).0) [
    | inl (r, p) ↦ elim (Option-cases (Dict.get s.sessions sid)) [
      | inl e ↦ rw (e, p) sound
      | inr (x, e) ↦
          let (moves, rest, over, _) = transition-end_state x.state (sound.settled sid x e) in
          rw (e, p, moves)
            (IsSound-put_end s.sessions s.seq sound sid x (end_state x.state) e rest over)
    ]
    | inr (x, p) ↦ elim (Option-cases (Dict.get s.sessions sid)) [
      | inl e ↦ rw (e, p) sound
      | inr (y, e) ↦ rw (e, p) sound
    ]
  ]

module _ {N : Type 0} (wiring : Wiring N) (returns : TeardownReturns wiring.provisioner) where
  -- Where the provisioner keeps its duty to return, a teardown returns a session that is not
  -- active, and a second one of the same id returns the same and leaves the sessions alone.
  pub teardown-teardown :
      (sid : Text) (s : Service N)
      → IsSound s.sessions s.seq
      → let (r, t) = teardown wiring sid s in
        let (r', t') = teardown wiring sid t in
        ((i : SessionInfo) × (r ≡ ok i) × (i.state ≢ active))
        × (r' ≡ r)
        × (t'.sessions ≡ t.sessions)
  teardown-teardown sid s sound = elim (Option-cases (Dict.get s.sessions sid)) [
    | inl e ↦
        let (a, p) = returns sid s.net in
        let (b, q) = returns sid (cleared wiring sid s) in
        rw
          (
            teardown-unknown wiring sid s a p e,
            teardown-unknown wiring sid (record s { net = cleared wiring sid s }) b q e,
          )
          ((no_session sid, refl, λ h. cc), refl, refl)
    | inr (x, e) ↦
        let (a, p) = returns sid s.net in
        let (b, q) = returns sid (cleared wiring sid s) in
        let rest = sound.settled sid x e in
        let (_, rest', over, again) = transition-end_state x.state rest in
        let t : Service N = record s {
          sessions = Dict.put s.sessions sid (ended x);
          net = cleared wiring sid s;
        } in
        rw
          (
            teardown-known wiring sid s a x p e rest,
            teardown-known wiring sid t b (ended x) q (get-put_self s.sessions sid (ended x)) rest',
            again,
            put-put_self s.sessions sid (ended x),
          )
          ((info (ended x), refl, over), refl, refl)
  ]
