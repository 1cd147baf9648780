-- ===== src/Controller/Teardown/Loops.antt =====
-- service.py: the two loops over the sessions, `tick` and `handle_revoked`.
use a2a_tokenized_provisioni.Base.{
  ℕ, ◌<◌, ◌≡◌, refl, ◌≢◌, subst, ◌∙◌, Bool, true, false, some, List, [], ◌∷◌, ◌++◌, inl, inr,
  Bool-cases, arith, text_eq, nat_eq, nat_beq_iff, ◌==◌, ◌&&◌, leb, if◌then◌else◌, All, All-map,
}
use a2a_tokenized_provisioni.Base.Decimal.{Text}
use mathlib.Core.List.{append_assoc}
use a2a_tokenized_provisioni.Exec.{ok}
use a2a_tokenized_provisioni.Dict
use a2a_tokenized_provisioni.Dict.{Dict}
use a2a_tokenized_provisioni.Dict.Unique.{
  UniqueKeys, Absent, Absent-append, get-append, put-append, get-entries, Absent-nil,
}
use a2a_tokenized_provisioni.Interfaces.{EntitlementView, active}
use a2a_tokenized_provisioni.Interfaces.Ports.{EntitlementReader, TeardownReturns}
use a2a_tokenized_provisioni.Controller.Domain.{state_eq, state_beq_iff}
use a2a_tokenized_provisioni.Controller.Service.{Session, Service, Wiring}
use a2a_tokenized_provisioni.Controller.Sessions.{IsSound, Settled}
use a2a_tokenized_provisioni.Controller.Teardown.{visit, sweep, tick, handle_revoked}
use a2a_tokenized_provisioni.Controller.Teardown.Sound.{ended, cleared, teardown-known}

-- A session that a loop with this test ends.
abbrev pub due : (Session → Bool) → Session → Bool
due test x = x.state == active && test x

-- The sessions after such a loop: each one that is due has ended, and the others are as before.
abbrev pub end_due : (Session → Bool) → Dict Text Session → Dict Text Session
end_due test [] = []
end_due test ((k, x) ∷ d) = (k, if due test x then ended x else x) ∷ end_due test d

-- The ids of the sessions that are due, in order.
abbrev pub due_ids : (Session → Bool) → Dict Text Session → List Text
due_ids test [] = []
due_ids test ((k, x) ∷ d) =
    let rest = due_ids test d in if due test x then x.session_id ∷ rest else rest

-- An entry as a loop needs it: keyed by its id, and at rest.
abbrev Tidy : Text × Session → Type 0
Tidy (k, x) = (k ≡ x.session_id) × Settled x.state

module _ {N : Type 0} (wiring : Wiring N) (returns : TeardownReturns wiring.provisioner)
    (test : Session → Bool) where
  sweep_from :
      (before todo : Dict Text Session) (s : Service N)
      → s.sessions ≡ before ++ todo
      → Absent before todo
      → UniqueKeys todo
      → All Tidy todo
      → let (r, t) = sweep wiring test (Dict.keys todo) s in
        (r ≡ ok (due_ids test todo)) × (t.sessions ≡ before ++ end_due test todo)
  unfolding sweep Dict.keys
  sweep_from before [] s e f u tidy = (refl, e)
  sweep_from before ((k, x) ∷ todo) s e f u tidy =
      let found : Dict.get s.sessions k ≡ some x = rw e (get-append before k x todo f.0) in
      elim (Bool-cases (due test x)) [
        | inl is_due ↦
            let (keyed, rest) = tidy.0 in
            let (a, p) = returns x.session_id s.net in
            let t : Service N = record s {
              sessions = Dict.put s.sessions x.session_id (ended x);
              net = cleared wiring x.session_id s;
            } in
            let written : t.sessions ≡ (before ++ (k, ended x) ∷ []) ++ todo =
              subst (λ j. Dict.put s.sessions j (ended x) ≡ (before ++ (k, ended x) ∷ []) ++ todo)
                keyed (rw (e, append_assoc) (put-append before k x (ended x) todo f.0)) in
            let (ids, finished) =
              sweep_from (before ++ (k, ended x) ∷ []) todo t written
                (Absent-append before todo k (ended x) f.1 u.0) u.1 tidy.1 in
            let step =
              teardown-known wiring x.session_id s a x p
                (subst (λ j. Dict.get s.sessions j ≡ some x) keyed found) rest in
            rw (found, visit, is_due, step)
              (rw ids
                (refl, finished ∙ append_assoc before ((k, ended x) ∷ []) (end_due test todo)))
        | inr not_due ↦
            let written : s.sessions ≡ (before ++ (k, x) ∷ []) ++ todo = rw append_assoc e in
            let (ids, finished) =
              sweep_from (before ++ (k, x) ∷ []) todo s written
                (Absent-append before todo k x f.1 u.0) u.1 tidy.1 in
            rw (found, visit, not_due)
              (ids, finished ∙ append_assoc before ((k, x) ∷ []) (end_due test todo))
      ]

-- A lookup after a loop.
pub get-end_due :
    (test : Session → Bool) (d : Dict Text Session) (k : Text) (y : Session)
    → Dict.get (end_due test d) k ≡ some y
    → (x : Session) × (Dict.get d k ≡ some x) × (y ≡ (if due test x then ended x else x))
unfolding Dict.get
get-end_due test [] k y h = absurd (cc)
get-end_due test ((j, x) ∷ d) k y h = elim (Bool-cases (j == k)) [
  | inl same ↦ (x, rw same, ground (arith, same))
  | inr other ↦ let (z, p, q) = get-end_due test d k y (rw other at h) in (z, rw other p, q)
]

-- No session that was due is active after a loop.
pub end_due-spared :
    (test : Session → Bool) (d : Dict Text Session) (k : Text) (y : Session)
    → Dict.get (end_due test d) k ≡ some y
    → y.state ≡ active
    → test y ≡ false
end_due-spared test d k y h a =
    let (x, p, q) = get-end_due test d k y h in ground (arith, p, q, state_beq_iff x.state active)

-- The entries of sound sessions, one by one.
IsSound-Tidy : (d : Dict Text Session) (n : ℕ) → IsSound d n → All Tidy d
IsSound-Tidy d n s =
    All-map (λ p. Dict.get d p.0 ≡ some p.1) Tidy d
      (λ p h. (s.keyed p.0 p.1 h, s.settled p.0 p.1 h)) (get-entries d s.unique)

module _ {N : Type 0} (wiring : Wiring N) (reader : EntitlementReader) where
  -- Where the provisioner keeps its duty to return, a tick at chain time `now` ends at once all
  -- active sessions whose end has come and no others, and returns their ids in order; after it
  -- every active session ends later than `now`.
  pub tick-ends :
      TeardownReturns wiring.provisioner
      → (now : ℕ) → reader.chain_time ≡ ok now
      → (s : Service N) → IsSound s.sessions s.seq
      → let (r, t) = tick wiring reader s in
        let over = λ (x : Session). leb x.expires_at now in
        (r ≡ ok (due_ids over s.sessions))
        × (t.sessions ≡ end_due over s.sessions)
        × ((k : Text) (x : Session)
            → Dict.get t.sessions k ≡ some x
            → x.state ≡ active
            → now < x.expires_at)
  unfolding tick
  tick-ends returns now h s sound =
      let over : Session → Bool = λ x. leb x.expires_at now in
      let (ids, finished) =
        sweep_from wiring returns over [] s.sessions s refl (Absent-nil s.sessions) sound.unique
          (IsSound-Tidy s.sessions s.seq sound) in
      rw h (
        ids,
        finished,
        λ k x e a. ground (arith, end_due-spared over s.sessions k x (rw finished at e) a),
      )

  -- Where the provisioner keeps its duty to return, the news of a revocation ends at once the
  -- active sessions of that entitlement and no others, if the chain confirms it; after it the
  -- entitlement has no active session. If the chain does not, nothing changes.
  pub handle_revoked-ends :
      TeardownReturns wiring.provisioner
      → (id : ℕ) (view : EntitlementView) → reader.get id ≡ ok view
      → (s : Service N) → IsSound s.sessions s.seq
      → let (r, t) = handle_revoked wiring reader id s in
        let own = λ (x : Session). x.entitlement_id == id in
        (r ≡ ok tt)
        × (view.revoked ≡ true
            → (t.sessions ≡ end_due own s.sessions)
              × ((k : Text) (x : Session)
                  → Dict.get t.sessions k ≡ some x
                  → x.state ≡ active
                  → x.entitlement_id ≢ id))
        × (view.revoked ≡ false → t ≡ s)
  unfolding handle_revoked
  handle_revoked-ends returns id view h s sound =
      let own : Session → Bool = λ x. x.entitlement_id == id in
      let (ids, finished) =
        sweep_from wiring returns own [] s.sessions s refl (Absent-nil s.sessions) sound.unique
          (IsSound-Tidy s.sessions s.seq sound) in
      elim (Bool-cases view.revoked) [
        | inl is_revoked ↦
            rw (h, is_revoked, ids)
              (
                refl,
                λ _. (
                  finished,
                  λ k x e a. ground (
                    arith,
                    end_due-spared own s.sessions k x (rw finished at e) a,
                    nat_beq_iff x.entitlement_id id,
                  ),
                ),
                λ b. absurd (cc),
              )
        | inr not_revoked ↦ rw (h, not_revoked) (refl, λ b. absurd (cc), λ _. refl)
      ]
