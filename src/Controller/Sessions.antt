-- ===== src/Controller/Sessions.antt =====
-- service.py: what holds of the dictionary of sessions between two calls of the service.
use a2a_tokenized_provisioni.Base.{
  ℕ, ◌+◌, ◌<◌, ◌≡◌, refl, ◌≢◌, sym, ap, ◌∙◌, false, none, some, [], ◌∷◌, inl, inr, Option-cases,
  subst, arith, elem, text_eq, nat_eq, append_cancel, append-separator, nat_beq_iff,
}
use a2a_tokenized_provisioni.Base.Decimal.{Text, codes, decimal, decimal-ne, decimal_injective}
use a2a_tokenized_provisioni.Dict
use a2a_tokenized_provisioni.Dict.{Dict, get-put_self, put-cases}
use a2a_tokenized_provisioni.Dict.Unique.{UniqueKeys, put-UniqueKeys}
use a2a_tokenized_provisioni.Interfaces.{
  SessionState, requested, authorized, active, torn_down, failed,
}
use a2a_tokenized_provisioni.Controller.Domain.{state_beq_iff, state_eq}
use a2a_tokenized_provisioni.Controller.Service.{Session, session_id, active_ids}

-- A session id fixes the entitlement and the number.
pub session_id_injective : (a b n m : ℕ) → session_id a n ≡ session_id b m → (a ≡ b) × (n ≡ m)
unfolding session_id
session_id_injective a b n m e =
    let (ids, rest) =
      append-separator b'-' (decimal a) (decimal b) (b'a' ∷ decimal n) (b'a' ∷ decimal m)
        (decimal-ne b'-' a (omega arith)) (decimal-ne b'-' b (omega arith))
        (append_cancel (codes "ent") e) in
    (decimal_injective a b ids, decimal_injective n m (append_cancel (b'a' ∷ []) rest))

-- A session at rest: it was provisioned, or it has failed.
abbrev pub Settled : SessionState → Type 0
Settled requested = ⊥
Settled authorized = ⊥
Settled active = Unit
Settled torn_down = Unit
Settled failed = Unit

-- `n` is the number of the next session.
pub record IsSound (d : Dict Text Session) (n : ℕ) : Type 0 where
  pub unique : UniqueKeys d
  pub keyed : (k : Text) (x : Session) → Dict.get d k ≡ some x → k ≡ x.session_id
  pub numbered :
      (k : Text) (x : Session)
      → Dict.get d k ≡ some x
      → (i : ℕ) × (i < n) × (k ≡ session_id x.entitlement_id i)
  pub settled : (k : Text) (x : Session) → Dict.get d k ≡ some x → Settled x.state
  -- no entitlement has two active sessions
  pub single :
      (k j : Text) (x y : Session)
      → Dict.get d k ≡ some x
      → Dict.get d j ≡ some y
      → x.state ≡ active
      → y.state ≡ active
      → x.entitlement_id ≡ y.entitlement_id
      → k ≡ j

pub IsSound-empty : (n : ℕ) → IsSound [] n
IsSound-empty n = record {
  unique = tt;
  keyed = λ k x h. cc (get-empty k);
  numbered = λ k x h. absurd (cc (get-empty k));
  settled = λ k x h. absurd (cc (get-empty k));
  single = λ k j x y h. absurd (cc (get-empty k));
}
  where
    get-empty : (k : Text) → Dict.get {V = Session} [] k ≡ none
    get-empty k = unfold Dict.get in refl

-- A number that is passed over does no harm.
pub IsSound-skip : (d : Dict Text Session) (n : ℕ) → IsSound d n → IsSound d (n + 1)
IsSound-skip d n s = record {
  unique = s.unique;
  keyed = s.keyed;
  numbered = λ k x h. let (i, lt, e) = s.numbered k x h in (i, omega arith, e);
  settled = s.settled;
  single = s.single;
}

module _ (d : Dict Text Session) (n : ℕ) (s : IsSound d n) where
  -- The next id is no key yet.
  pub session_id-fresh : (id : ℕ) → Dict.get d (session_id id n) ≡ none
  session_id-fresh id = elim (Option-cases (Dict.get d (session_id id n))) [
    | inl e ↦ e
    | inr (x, e) ↦
        let (i, lt, same) = s.numbered (session_id id n) x e in
        let (_, eq) = session_id_injective id x.entitlement_id n i same in absurd (omega arith)
  ]

  -- A new session under the next id; if it is active, no other one of its entitlement is.
  pub IsSound-put_new :
      (x : Session)
      → x.session_id ≡ session_id x.entitlement_id n
      → Settled x.state
      → (x.state ≡ active
          → (k : Text) (y : Session) → Dict.get d k ≡ some y
          → y.state ≡ active
          → y.entitlement_id ≢ x.entitlement_id)
      → IsSound (Dict.put d x.session_id x) (n + 1)
  IsSound-put_new x named rest alone = record {
    unique = put-UniqueKeys d x.session_id x s.unique;
    keyed = λ k y h. elim (put-cases d x.session_id k x y h) [
      | inl (e, f) ↦ cc
      | inr (e, f) ↦ s.keyed k y f
    ];
    numbered = λ k y h. elim (put-cases d x.session_id k x y h) [
      | inl (e, f) ↦
          (n, omega arith, sym e ∙ named ∙ ap (λ (z : Session). session_id z.entitlement_id n) f)
      | inr (e, f) ↦ let (i, lt, p) = s.numbered k y f in (i, omega arith, p)
    ];
    settled = λ k y h. elim (put-cases d x.session_id k x y h) [
      | inl (e, f) ↦ subst (λ (z : Session). Settled z.state) f rest
      | inr (e, f) ↦ s.settled k y f
    ];
    single = λ k j y z hy hz ay az same. elim (put-cases d x.session_id k x y hy) [
      | inl (e, f) ↦ elim (put-cases d x.session_id j x z hz) [
        | inl (e', f') ↦ cc
        | inr (e', f') ↦ absurd (alone (cc) j z f' az (cc))
      ]
      | inr (e, f) ↦ elim (put-cases d x.session_id j x z hz) [
        | inl (e', f') ↦ absurd (alone (cc) k y f ay (cc))
        | inr (e', f') ↦ s.single k j y z f f' ay az same
      ]
    ];
  }

  -- A session that ends: a new state at rest which is not active.
  pub IsSound-put_end :
      (k : Text) (x : Session) (t : SessionState)
      → Dict.get d k ≡ some x
      → Settled t
      → t ≢ active
      → IsSound (Dict.put d k (record x { state = t })) n
  IsSound-put_end k x t there rest ended = record {
    unique = put-UniqueKeys d k (record x { state = t }) s.unique;
    keyed = λ j y h. elim (put-cases d k j (record x { state = t }) y h) [
      | inl (e, f) ↦ sym e ∙ s.keyed k x there ∙ ap (λ (z : Session). z.session_id) f
      | inr (e, f) ↦ s.keyed j y f
    ];
    numbered = λ j y h. elim (put-cases d k j (record x { state = t }) y h) [
      | inl (e, f) ↦
          let (i, lt, p) = s.numbered k x there in
          (i, lt, sym e ∙ p ∙ ap (λ (z : Session). session_id z.entitlement_id i) f)
      | inr (e, f) ↦ s.numbered j y f
    ];
    settled = λ j y h. elim (put-cases d k j (record x { state = t }) y h) [
      | inl (e, f) ↦ subst (λ (z : Session). Settled z.state) f rest
      | inr (e, f) ↦ s.settled j y f
    ];
    single = λ i j y z hy hz ay az same. elim (put-cases d k i (record x { state = t }) y hy) [
      | inl (e, f) ↦ absurd (ended (ap (λ (z : Session). z.state) f ∙ ay))
      | inr (e, f) ↦ elim (put-cases d k j (record x { state = t }) z hz) [
        | inl (e', f') ↦ absurd (ended (ap (λ (z : Session). z.state) f' ∙ az))
        | inr (e', f') ↦ s.single i j y z f f' ay az same
      ]
    ];
  }

-- An entitlement that is not among the active ids has no active session.
pub active_ids-unbooked :
    (d : Dict Text Session) (id : ℕ) (k : Text) (x : Session)
    → elem id (active_ids d) ≡ false
    → Dict.get d k ≡ some x
    → x.state ≡ active
    → x.entitlement_id ≢ id
unfolding active_ids Dict.get
active_ids-unbooked [] id k x h e a = absurd (cc)
active_ids-unbooked ((j, y) ∷ d) id k x h e a = ground (
  arith,
  active_ids-unbooked d id k x,
  state_beq_iff y.state active,
  nat_beq_iff y.entitlement_id id,
  nat_beq_iff x.entitlement_id id,
)
