-- ===== src/Skeleton/Stub/Sweeps.antt =====
-- stub_controller.py over the recording network: the loops of `tick` and
-- `_on_revoked`, which end the sessions that are due.
use a2a_tokenized_provisioni.Base.{
  ℕ, ◌≢◌, ◌↔◌, ◌≡◌, refl, sym, ap, ◌∙◌, Bool, true, false, Option, none, some, List, [], ◌∷◌, ◌==◌,
  elem, inl, inr, Bool-cases, arith, text_eq, nat_eq, text_beq_iff, text_beq,
}
use a2a_tokenized_provisioni.Base.Decimal.{Text}
use a2a_tokenized_provisioni.Exec.{Exec, Exception, Result, Result-cases, ok, raised, raised-ne-ok}
use a2a_tokenized_provisioni.Dict
use a2a_tokenized_provisioni.Dict.{Dict}
use a2a_tokenized_provisioni.Interfaces.{EntitlementView, active}
use a2a_tokenized_provisioni.Controller.Domain.{state_eq, state_beq_iff}
use a2a_tokenized_provisioni.Netctl.Mock.{MockNet, mock}
use a2a_tokenized_provisioni.Skeleton.Stub.{StubController, StubSession, visit, sweep}
use a2a_tokenized_provisioni.Skeleton.Stub.Backed.{IsBacked}
use a2a_tokenized_provisioni.Skeleton.Stub.Ends.{
  IsBacked-ended, ended_as, teardown_lem, downed-cases, down-ne-up, get-downed_ne,
}

-- What a loop over `keys` does: it returns, no session under a key is active and due, and a
-- session that is active was so before.
pub record Swept (due : StubSession → Result Bool) (keys : List Text) (s : StubController MockNet)
    (out : Result (Unit {0}) × StubController MockNet) : Type 0 where
  pub returns : out.0 ≡ ok tt
  pub done :
      (k : Text) (x : StubSession)
      → elem k keys ≡ true
      → Dict.get out.1.sessions k ≡ some x
      → x.state ≡ active
      → due x ≡ ok false
  pub kept :
      (k : Text) (x : StubSession)
      → Dict.get out.1.sessions k ≡ some x
      → x.state ≡ active
      → Dict.get s.sessions k ≡ some x
  pub spared :
      (k : Text) (x : StubSession)
      → Dict.get s.sessions k ≡ some x
      → due x ≡ ok false
      → Dict.get out.1.sessions k ≡ some x

module _ (due : StubSession → Result Bool) where
  -- the test of the loop returns for each active session
  abbrev pub Decides : StubController MockNet → Type 0
  Decides s =
      (k : Text) (x : StubSession)
      → Dict.get s.sessions k ≡ some x
      → x.state ≡ active
      → (b : Bool) × (due x ≡ ok b)

  -- The turn of one session, by what is under its key.
  data Turn (key : Text) (s : StubController MockNet)
      (later : Exec (StubController MockNet) (Unit {0}))
      (out : Result (Unit {0}) × StubController MockNet) : Type 0 where
    passes :
        out ≡ later s
        → ((x : StubSession)
            → Dict.get s.sessions key ≡ some x
            → x.state ≡ active
            → due x ≡ ok false)
        → Turn key s later out
    ends :
        out ≡ later (ended_as key s)
        → ((x : StubSession) → Dict.get s.sessions key ≡ some x → due x ≢ ok false)
        → Turn key s later out
    stops : (x : Exception) → out ≡ (raised x, s) → ¬ Decides s → Turn key s later out

  visit-Turn :
      (tokens : Dict ℕ EntitlementView) (key : Text) (s : StubController MockNet)
      (later : Exec (StubController MockNet) (Unit {0}))
      → IsBacked tokens s
      → (found : Option StubSession) → Dict.get s.sessions key ≡ found
      → Turn key s later (visit mock due found later s)
  unfolding visit
  visit-Turn tokens key s later b none e = passes refl (λ x h up. absurd (cc))
  visit-Turn tokens key s later b (some x) e = elim (Bool-cases (x.state == active)) [
    | inr down ↦ passes (rw down refl) (λ y h up.
        let p : some x ≡ some y = sym e ∙ h in
        let q : x ≡ y = cc in
        absurd (
          ground
            (arith, state_beq_iff x.state active, down, ap (λ (z : StubSession). z.state) q ∙ up)))
    | inl up ↦ elim (Result-cases (due x)) [
      | inr (z, f) ↦ stops z (rw (up, f) refl) (λ decides.
          let (c, g) = decides key x e ((state_beq_iff x.state active).0 up) in
          raised-ne-ok (sym f ∙ g))
      | inl (true, f) ↦
          ends (rw (up, f, teardown_lem x.session_id s, b.named key x e) refl) (λ y h not_due.
            let p : some x ≡ some y = sym e ∙ h in
            let q : x ≡ y = cc in absurd (cc (sym f ∙ ap due q ∙ not_due)))
      | inl (false, f) ↦
          passes (rw (up, f) refl) (λ y h u.
            let p : some x ≡ some y = sym e ∙ h in let q : x ≡ y = cc in ap due (sym q) ∙ f)
    ]
  ]

  -- A loop over any keys keeps what holds between calls, also where it raises.
  pub sweep-IsBacked :
      (tokens : Dict ℕ EntitlementView) (keys : List Text) (s : StubController MockNet)
      → IsBacked tokens s
      → IsBacked tokens (sweep mock due keys s).1
  unfolding sweep
  sweep-IsBacked tokens [] s b = b
  sweep-IsBacked tokens (key ∷ keys) s b =
      elim (visit-Turn tokens key s (sweep mock due keys) b (Dict.get s.sessions key) refl) [
        | passes e h ↦ rw e (sweep-IsBacked tokens keys s b)
        | ends e h ↦
            rw e (sweep-IsBacked tokens keys (ended_as key s) (IsBacked-ended tokens key s b))
        | stops x e h ↦ rw e b
      ]

  ended_as-Decides :
      (key : Text) (s : StubController MockNet) → Decides s → Decides (ended_as key s)
  ended_as-Decides key s d k x h up = elim (downed-cases s.sessions key k x h) [
    | inl (e, (y, p, q, r)) ↦ absurd (down-ne-up x r up)
    | inr (e, f) ↦ d k x f up
  ]

  module _ (key : Text) (keys : List Text) (s : StubController MockNet)
      (out : Result (Unit {0}) × StubController MockNet) where
    Swept-passes :
        ((x : StubSession) → Dict.get s.sessions key ≡ some x → x.state ≡ active → due x ≡ ok false)
        → Swept due keys s out
        → Swept due (key ∷ keys) s out
    Swept-passes h w = record {
      returns = w.returns;
      done = λ k x mem there up. elim (Bool-cases (text_beq key k)) [
        | inl same ↦
            h x
              (ap (λ j. Dict.get s.sessions j) ((text_beq_iff key k).0 same) ∙ w.kept k x there up)
              up
        | inr other ↦ w.done k x (ground (arith, mem, other)) there up
      ];
      kept = w.kept;
      spared = w.spared;
    }

    Swept-ends :
        ((x : StubSession) → Dict.get s.sessions key ≡ some x → due x ≢ ok false)
        → Swept due keys (ended_as key s) out
        → Swept due (key ∷ keys) s out
    Swept-ends h w = record {
      returns = w.returns;
      done = λ k x mem there up. elim (downed-cases s.sessions key k x (w.kept k x there up)) [
        | inl (e, (y, p, q, r)) ↦ absurd (down-ne-up x r up)
        | inr (e, f) ↦ w.done k x (ground (arith, mem, text_beq_iff key k, e)) there up
      ];
      kept = λ k x there up. elim (downed-cases s.sessions key k x (w.kept k x there up)) [
        | inl (e, (y, p, q, r)) ↦ absurd (down-ne-up x r up)
        | inr (e, f) ↦ f
      ];
      spared = λ k x there not_due. elim (Bool-cases (text_beq key k)) [
        | inl same ↦
            absurd
              (h x (ap (λ j. Dict.get s.sessions j) ((text_beq_iff key k).0 same) ∙ there) not_due)
        | inr other ↦
            let e : key ≢ k = λ e. ground (arith, text_beq_iff key k, other, e) in
            w.spared k x (get-downed_ne s.sessions key k e ∙ there) not_due
      ];
    }

  pub sweep-Swept :
      (tokens : Dict ℕ EntitlementView) (keys : List Text) (s : StubController MockNet)
      → IsBacked tokens s
      → Decides s
      → Swept due keys s (sweep mock due keys s)
  unfolding sweep
  sweep-Swept tokens [] s b d = record {
    returns = refl;
    done = λ k x mem h up. absurd (cc);
    kept = λ k x h up. h;
    spared = λ k x h n. h;
  }
  sweep-Swept tokens (key ∷ keys) s b d =
      elim (visit-Turn tokens key s (sweep mock due keys) b (Dict.get s.sessions key) refl) [
        | passes e h ↦
            rw e (Swept-passes key keys s (sweep mock due keys s) h (sweep-Swept tokens keys s b d))
        | ends e h ↦
            let t = ended_as key s in
            rw e (
              Swept-ends key keys s (sweep mock due keys t) h (
                sweep-Swept tokens keys t (IsBacked-ended tokens key s b)
                  (ended_as-Decides key s d)))
        | stops x e h ↦ absurd (h d)
      ]

pub get-keys :
    (d : Dict Text StubSession) (k : Text) (x : StubSession)
    → Dict.get d k ≡ some x
    → elem k (Dict.keys d) ≡ true
unfolding Dict.get Dict.keys
get-keys [] k x h = absurd (cc)
get-keys ((j, y) ∷ d) k x h = ground (arith, get-keys d k x, text_beq_iff j k)

-- A loop over all sessions returns, and of those that are active it leaves the ones not due.
pub sweep-all :
    (due : StubSession → Result Bool) (tokens : Dict ℕ EntitlementView) (s : StubController MockNet)
    → IsBacked tokens s
    → Decides due s
    → let (r, t) = sweep mock due (Dict.keys s.sessions) s in
      (r ≡ ok tt)
      × ((k : Text) (x : StubSession)
          → x.state ≡ active
          → (Dict.get t.sessions k ≡ some x)
            ↔ ((Dict.get s.sessions k ≡ some x) × (due x ≡ ok false)))
sweep-all due tokens s b d =
    let w = sweep-Swept due tokens (Dict.keys s.sessions) s b d in
    (
      w.returns,
      λ k x up. (
        λ h. let was = w.kept k x h up in (was, w.done k x (get-keys s.sessions k x was) h up),
        λ p. w.spared k x p.0 p.1,
      ),
    )
