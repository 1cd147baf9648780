-- ===== src/Dashboard/Flow.antt =====
-- orchestrator.py: how a purchase of the console ends.
use a2a_tokenized_provisioni.Base.{
  ℕ, ◌≡◌, ◌≢◌, refl, ap, ◌∙◌, ◌⊎◌, inl, inr, true, false, Option, none, some, Option-cases, ◌==◌,
  if◌then◌else◌, arith, nat_eq, nat_beq_iff,
}
use a2a_tokenized_provisioni.Base.Decimal.{Text}
use a2a_tokenized_provisioni.Exec.{Exec, Exception, Result-cases, ok, raised, ◌>>=◌, ◌>>◌}
use a2a_tokenized_provisioni.Dict
use a2a_tokenized_provisioni.Dict.{Dict, get-put}
use a2a_tokenized_provisioni.Interfaces.{SignedOffer, SessionInfo}
use a2a_tokenized_provisioni.Dashboard.{
  Pipeline, Console, activate_ticket, set_default, buy, judge_offer, attempt, provision,
}

-- The console's sessions `after` hold `id` as `value`, and else what they held `before`.
abbrev pub Holds : (id : ℕ) (value : Option Text) (before after : Dict ℕ (Option Text)) → Type 0
Holds id value before after =
    (k : ℕ) → Dict.get after k ≡ (if id == k then some value else Dict.get before k)

-- what was known of an entitlement, and nothing where it was not there
abbrev pub known : Option (Option Text) → Option Text
known none = none
known (some value) = value

module _ {E : Type 0} (p : Pipeline E) (service : Text) where
  -- the calls of an activation, each with what those before it left
  abbrev pub activation : (id : ℕ) → Exec E SessionInfo
  activation id = do
    p.show_ticket id
    p.increase_time
    challenge ← p.challenge id
    signature ← p.sign_proof id challenge
    p.show_checks id
    p.activate id service challenge.nonce signature

  -- What becomes of the console's sessions, by what the calls answer in their order from `e` on.
  pub data Ends (e : E) (before after : Dict ℕ (Option Text)) : Type 0 where
    not_offered :
        ((offer : SignedOffer) → (p.negotiate e).0 ≢ ok (inl offer))
        → after ≡ before
        → Ends e before after
    not_accepted :
        (offer : SignedOffer) (e1 : E)
        → p.negotiate e ≡ (ok (inl offer), e1)
        → (p.decide offer e1).0 ≢ ok true
        → after ≡ before
        → Ends e before after
    not_bought :
        (offer : SignedOffer) (e1 e2 : E)
        → p.negotiate e ≡ (ok (inl offer), e1)
        → p.decide offer e1 ≡ (ok true, e2)
        → ((id : ℕ) → (p.fulfill_offer offer e2).0 ≢ ok id)
        → after ≡ before
        → Ends e before after
    bought :
        (offer : SignedOffer) (id : ℕ) (e1 e2 e3 : E) (x : Exception)
        → p.negotiate e ≡ (ok (inl offer), e1)
        → p.decide offer e1 ≡ (ok true, e2)
        → p.fulfill_offer offer e2 ≡ (ok id, e3)
        → (activation id e3).0 ≡ raised x
        → Holds id (known (Dict.get before id)) before after
        → Ends e before after
    live :
        (offer : SignedOffer) (id : ℕ) (e1 e2 e3 : E) (info : SessionInfo)
        → p.negotiate e ≡ (ok (inl offer), e1)
        → p.decide offer e1 ≡ (ok true, e2)
        → p.fulfill_offer offer e2 ≡ (ok id, e3)
        → (activation id e3).0 ≡ ok info
        → Holds id (some info.session_id) before after
        → Ends e before after

  -- what the activation of a ticket does to the sessions
  abbrev Activated : (id : ℕ) → E → (before after : Dict ℕ (Option Text)) → Type 0
  Activated id e before after =
      ((x : Exception) × ((activation id e).0 ≡ raised x) × (after ≡ before))
      ⊎ ((info : SessionInfo) × ((activation id e).0 ≡ ok info)
          × (after ≡ Dict.put before id (some info.session_id)))

  activate_ticket-Activated :
      (id : ℕ) (c : Console E)
      → Activated id c.rest c.sessions (activate_ticket p service id c).1.sessions
  unfolding activate_ticket
  activate_ticket-Activated id c =
      let e1 = (p.show_ticket id c.rest).1 in
      let e2 = (p.increase_time e1).1 in
      let e3 = (p.challenge id e2).1 in
      elim (Result-cases (p.show_ticket id c.rest).0) [
        | inr (x, h1) ↦ inl (x, rw h1 refl, rw h1 refl)
        | inl (u, h1) ↦ elim (Result-cases (p.increase_time e1).0) [
          | inr (x, h2) ↦ inl (x, rw (h1, h2) refl, rw (h1, h2) refl)
          | inl (u', h2) ↦ elim (Result-cases (p.challenge id e2).0) [
            | inr (x, h3) ↦ inl (x, rw (h1, h2, h3) refl, rw (h1, h2, h3) refl)
            | inl (ch, h3) ↦
                let e4 = (p.sign_proof id ch e3).1 in
                let e5 = (p.show_checks id e4).1 in
                elim (Result-cases (p.sign_proof id ch e3).0) [
                  | inr (x, h4) ↦ inl (x, rw (h1, h2, h3, h4) refl, rw (h1, h2, h3, h4) refl)
                  | inl (sig, h4) ↦ elim (Result-cases (p.show_checks id e4).0) [
                    | inr (x, h5) ↦
                        inl (x, rw (h1, h2, h3, h4, h5) refl, rw (h1, h2, h3, h4, h5) refl)
                    | inl (u'', h5) ↦
                        elim (Result-cases (p.activate id service ch.nonce sig e5).0) [
                          | inr (x, h6) ↦ inl (
                            x,
                            rw (h1, h2, h3, h4, h5, h6) refl,
                            rw (h1, h2, h3, h4, h5, h6) refl,
                          )
                          | inl (info, h6) ↦ inr (
                            info,
                            rw (h1, h2, h3, h4, h5, h6) refl,
                            rw (h1, h2, h3, h4, h5, h6) refl,
                          )
                        ]
                  ]
                ]
          ]
        ]
      ]

  set_default-Holds :
      (id : ℕ) (sessions : Dict ℕ (Option Text))
      → Holds id (known (Dict.get sessions id)) sessions (set_default id sessions)
  unfolding set_default
  set_default-Holds id sessions k = elim (Option-cases (Dict.get sessions id)) [
    | inl e ↦ rw e (get-put sessions id k none)
    | inr (value, e) ↦ rw e (ground (arith, e, nat_beq_iff id k))
  ]

  put-Holds :
      (id : ℕ) (value : Option Text) (sessions : Dict ℕ (Option Text))
      → Holds id value sessions (Dict.put (set_default id sessions) id value)
  put-Holds id value sessions k =
      get-put (set_default id sessions) id k value ∙ ground (arith, set_default-Holds id sessions k)

  attempt-Ends : (c : Console E) → Ends c.rest c.sessions (attempt p service c).1.sessions
  unfolding attempt judge_offer buy
  attempt-Ends c =
      let e1 = (p.negotiate c.rest).1 in
      elim (Result-cases (p.negotiate c.rest).0) [
        | inr (x, h) ↦ rw h (not_offered (λ offer q. cc) refl)
        | inl (inr decline, h) ↦ rw h (not_offered (λ offer q. cc) refl)
        | inl (inl offer, h) ↦
            let e2 = (p.decide offer e1).1 in
            elim (Result-cases (p.decide offer e1).0) [
              | inr (x, d) ↦ rw (h, d) (not_accepted offer e1 (ap (λ r. (r, e1)) h) (λ q. cc) refl)
              | inl (false, d) ↦
                  rw (h, d) (not_accepted offer e1 (ap (λ r. (r, e1)) h) (λ q. cc) refl)
              | inl (true, d) ↦
                  let e3 = (p.fulfill_offer offer e2).1 in
                  let offered : p.negotiate c.rest ≡ (ok (inl offer), e1) = ap (λ r. (r, e1)) h in
                  let accepted : p.decide offer e1 ≡ (ok true, e2) = ap (λ r. (r, e2)) d in
                  elim (Result-cases (p.fulfill_offer offer e2).0) [
                    | inr (x, f) ↦
                        rw (h, d, f) (not_bought offer e1 e2 offered accepted (λ id q. cc) refl)
                    | inl (id, f) ↦
                        let paid : Console E = record c {
                          sessions = set_default id c.sessions;
                          rest = e3;
                        } in
                        let settled = ap (λ r. (r, e3)) f in
                        rw (h, d, f)
                          (elim (activate_ticket-Activated id paid) [
                            | inl (x, a, same) ↦
                                bought offer id e1 e2 e3 x offered accepted settled a (λ k.
                                  ap (λ (m : Dict ℕ (Option Text)). Dict.get m k) same
                                  ∙ set_default-Holds id c.sessions k)
                            | inr (info, a, same) ↦
                                live offer id e1 e2 e3 info offered accepted settled a (λ k.
                                  ap (λ (m : Dict ℕ (Option Text)). Dict.get m k) same
                                  ∙ put-Holds id (some info.session_id) c.sessions k)
                          ])
                  ]
            ]
      ]

  -- A purchase of the console that has started returns, whatever its calls raise. Its sessions are
  -- as before if no offer came, it was not accepted, or it was not bought. Otherwise they hold the
  -- bought entitlement: with the session that its activation returned, and if the activation
  -- raised, with what was known of it; the other entitlements are as before.
  pub provision-Ends :
      (c : Console E)
      → (p.ensure_started c.rest).0 ≡ ok tt
      → let (r, c') = provision p service c in
        (r ≡ ok tt) × Ends (p.ensure_started c.rest).1 c.sessions c'.sessions
  unfolding provision
  provision-Ends c started =
      rw started (
        refl,
        attempt-Ends (record c { last_service = service; rest = (p.ensure_started c.rest).1 }),
      )
