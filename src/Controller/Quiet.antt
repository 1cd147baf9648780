-- ===== src/Controller/Quiet.antt =====
-- service.py: the calls that open nothing. Each leaves sound sessions sound, and every session
-- that is active after it was there before, whether the call returns or raises.
use a2a_tokenized_provisioni.Base.{
  ℕ, ◌≡◌, refl, ap, ◌∙◌, Bool, some, List, [], ◌∷◌, inl, inr, Option-cases, Bool-cases, arith,
  text_eq, nat_eq, ◌==◌, leb,
}
use a2a_tokenized_provisioni.Base.Decimal.{Text, codes}
use a2a_tokenized_provisioni.Exec.{Result-cases}
use a2a_tokenized_provisioni.Dict
use a2a_tokenized_provisioni.Dict.{Dict, put-cases}
use a2a_tokenized_provisioni.Interfaces.{active}
use a2a_tokenized_provisioni.Interfaces.Ports.{EntitlementReader}
use a2a_tokenized_provisioni.Controller.Auth.{verify}
use a2a_tokenized_provisioni.Controller.Service.{Session, Service, Wiring, challenge}
use a2a_tokenized_provisioni.Controller.Sessions.{IsSound}
use a2a_tokenized_provisioni.Controller.Teardown.{
  teardown, visit, sweep, tick, handle_revoked, request_end, teardown_requested,
}
use a2a_tokenized_provisioni.Controller.Teardown.Sound.{
  ended, transition-end_state, teardown-IsSound,
}
use a2a_tokenized_provisioni.Controller.Teardown.Loops.{due}

module _ {N : Type 0} where
  pub record Quiet (s t : Service N) : Type 0 where
    pub sound : IsSound t.sessions t.seq
    pub not_new :
        (k : Text) (x : Session)
        → Dict.get t.sessions k ≡ some x
        → x.state ≡ active
        → Dict.get s.sessions k ≡ some x

  -- a call, from sound sessions
  abbrev pub Quietly : Service N → Service N → Type 0
  Quietly s t = IsSound s.sessions s.seq → Quiet s t

  pub Quietly-same : (s t : Service N) → t.sessions ≡ s.sessions → t.seq ≡ s.seq → Quietly s t
  Quietly-same s t e f h = record { sound = rw (e, f) h; not_new = λ k x g a. rw e at g }

  pub Quietly-trans : (s t u : Service N) → Quietly s t → Quietly t u → Quietly s u
  Quietly-trans s t u f g h =
      let q = f h in
      let r = g q.sound in
      record { sound = r.sound; not_new = λ k x e a. q.not_new k x (r.not_new k x e a) a }

module _ {N : Type 0} (wiring : Wiring N) where
  pub teardown-Quietly : (sid : Text) (s : Service N) → Quietly s (teardown wiring sid s).1
  unfolding teardown
  teardown-Quietly sid s h = record {
    sound = teardown-IsSound wiring sid s h;
    not_new = λ k x g a. elim (Result-cases (wiring.provisioner.teardown sid s.net).0) [
      | inl (r, p) ↦ elim (Option-cases (Dict.get s.sessions sid)) [
        | inl e ↦ rw (e, p) at g
        | inr (y, e) ↦
            let (moves, _, over, _) = transition-end_state y.state (h.settled sid y e) in
            elim (put-cases s.sessions sid k (ended y) x (rw (e, p, moves) at g)) [
              | inl (same, f) ↦ absurd (over (ap (λ (z : Session). z.state) f ∙ a))
              | inr (other, f) ↦ f
            ]
      ]
      | inr (y, p) ↦ elim (Option-cases (Dict.get s.sessions sid)) [
        | inl e ↦ rw (e, p) at g
        | inr (z, e) ↦ rw (e, p) at g
      ]
    ];
  }

  sweep-Quietly :
      (test : Session → Bool) (keys : List Text) (s : Service N)
      → Quietly s (sweep wiring test keys s).1
  unfolding sweep visit
  sweep-Quietly test [] s = Quietly-same s s refl refl
  sweep-Quietly test (key ∷ keys) s = elim (Option-cases (Dict.get s.sessions key)) [
    | inl e ↦ rw e (sweep-Quietly test keys s)
    | inr (x, e) ↦ elim (Bool-cases (due test x)) [
      | inl is_due ↦
          let t = (teardown wiring x.session_id s).1 in
          elim (Result-cases (teardown wiring x.session_id s).0) [
            | inl (r, p) ↦
                let u = (sweep wiring test keys t).1 in
                let both =
                  Quietly-trans s t u (teardown-Quietly x.session_id s)
                    (sweep-Quietly test keys t) in
                elim (Result-cases (sweep wiring test keys t).0) [
                  | inl (ids, q) ↦ rw (e, is_due, p, q) both
                  | inr (y, q) ↦ rw (e, is_due, p, q) both
                ]
            | inr (y, p) ↦ rw (e, is_due, p) (teardown-Quietly x.session_id s)
          ]
      | inr not_due ↦ rw (e, not_due) (sweep-Quietly test keys s)
    ]
  ]

  pub tick-Quietly :
      (reader : EntitlementReader) (s : Service N) → Quietly s (tick wiring reader s).1
  unfolding tick
  tick-Quietly reader s = elim (Result-cases reader.chain_time) [
    | inl (now, p) ↦ rw p (sweep-Quietly (λ x. leb x.expires_at now) (Dict.keys s.sessions) s)
    | inr (x, p) ↦ rw p (Quietly-same s s refl refl)
  ]

  pub handle_revoked-Quietly :
      (reader : EntitlementReader) (id : ℕ) (s : Service N)
      → Quietly s (handle_revoked wiring reader id s).1
  unfolding handle_revoked
  handle_revoked-Quietly reader id s = elim (Result-cases (reader.get id)) [
    | inl (view, p) ↦ elim (Bool-cases view.revoked) [
      | inl gone ↦
          let own : Session → Bool = λ x. x.entitlement_id == id in
          let swept = sweep-Quietly own (Dict.keys s.sessions) s in
          elim (Result-cases (sweep wiring own (Dict.keys s.sessions) s).0) [
            | inl (r, q) ↦ rw (p, gone, q) swept
            | inr (x, q) ↦ rw (p, gone, q) swept
          ]
      | inr valid ↦ rw (p, valid) (Quietly-same s s refl refl)
    ]
    | inr (x, p) ↦ rw p (Quietly-same s s refl refl)
  ]

  pub teardown_requested-Quietly :
      (reader : EntitlementReader) (sid nonce signature : Text) (s : Service N)
      → Quietly s (teardown_requested wiring reader sid nonce signature s).1
  unfolding teardown_requested request_end
  teardown_requested-Quietly reader sid nonce signature s =
      elim (Option-cases (Dict.get s.sessions sid)) [
        | inl e ↦ rw e (Quietly-same s s refl refl)
        | inr (x, e) ↦ elim (Result-cases (reader.owner_of x.entitlement_id)) [
          | inl (owner, p) ↦ elim (Result-cases reader.chain_time) [
            | inl (now, q) ↦
                let (denial, auth') =
                  verify wiring.recover x.entitlement_id nonce signature owner now
                    (codes "teardown") s.auth in
                let t : Service N = record s { auth = auth' } in
                elim (Option-cases denial) [
                  | inl good ↦
                      rw (e, p, q, good)
                        (Quietly-trans s t (teardown wiring sid t).1 (Quietly-same s t refl refl)
                          (teardown-Quietly sid t))
                  | inr (code, bad) ↦ rw (e, p, q, bad) (Quietly-same s t refl refl)
                ]
            | inr (y, q) ↦ rw (e, p, q) (Quietly-same s s refl refl)
          ]
          | inr (y, p) ↦ rw (e, p) (Quietly-same s s refl refl)
        ]
      ]

pub challenge-Quietly :
    {N : Type 0} (reader : EntitlementReader) (token : Text) (id : ℕ) (s : Service N)
    → Quietly s (challenge reader token id s).1
unfolding challenge
challenge-Quietly reader token id s =
    Quietly-same s (challenge reader token id s).1 (ground arith) (ground arith)
