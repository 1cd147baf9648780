-- ===== src/Agents/Consumer/Outcomes.antt =====
-- consumer_graph.py: every way in which a purchase can end, and what it has done to the world.
use a2a_tokenized_provisioni.Base.{
  ℕ, ◌+◌, ◌*◌, ◌<◌, ◌≡◌, ◌↔◌, refl, ap, ◌∙◌, ◌⊎◌, inl, inr, true, false, Option, some, arith, Bool,
  Bool-cases,
}
use a2a_tokenized_provisioni.Base.Decimal.{Text}
use a2a_tokenized_provisioni.Exec.{Exception, Result, ok, raised, Result-cases}
use a2a_tokenized_provisioni.Interfaces.{ServiceNeed, SignedOffer, Decline, DecisionOutput}
use a2a_tokenized_provisioni.Agents.Catalogue.{service_for}
use a2a_tokenized_provisioni.Agents.Consumer.{
  ConsumerTools, ConsumerState, asked, tok, price_tok, DecisionModel, policy, make_decision,
  purchase, weigh, follow, consume,
}

abbrev with_accept : Bool → DecisionOutput → DecisionOutput
with_accept b d = record { accept = b; reason = d.reason }

module _ {W : Type 0} (llm : Option DecisionModel) (tools : ConsumerTools W) (need : ServiceNeed)
    (budget_tok : ℕ) where
  abbrev pub offered : SignedOffer → ConsumerState
  offered signed = record (asked need budget_tok) { offer = some signed }

  abbrev pub decided : SignedOffer → DecisionOutput → ConsumerState
  decided signed d = record (offered signed) { decision = some d }

  -- The ends of a run in the world `w`, with the world that it leaves.
  pub data Outcome (w : W) : Result ConsumerState → W → Type 0 where
    unanswered :
        (x : Exception) (w1 : W) → tools.quote need w ≡ (raised x, w1) → Outcome w (raised x) w1
    declined :
        (d : Decline) (w1 : W)
        → tools.quote need w ≡ (ok (inr d), w1)
        → Outcome w (ok (asked need budget_tok)) w1
    undecided :
        (s : SignedOffer) (x : Exception) (w1 : W)
        → tools.quote need w ≡ (ok (inl s), w1)
        → make_decision llm need s budget_tok ≡ raised x
        → Outcome w (raised x) w1
    rejected :
        (s : SignedOffer) (d : DecisionOutput) (w1 : W)
        → tools.quote need w ≡ (ok (inl s), w1)
        → make_decision llm need s budget_tok ≡ ok d
        → d.accept ≡ false
        → Outcome w (ok (decided s d)) w1
    unsettled :
        (s : SignedOffer) (d : DecisionOutput) (x : Exception) (w1 w2 : W)
        → tools.quote need w ≡ (ok (inl s), w1)
        → make_decision llm need s budget_tok ≡ ok d
        → d.accept ≡ true
        → tools.settle s w1 ≡ (raised x, w2)
        → Outcome w (raised x) w2
    inactive :
        (s : SignedOffer) (d : DecisionOutput) (id : ℕ) (x : Exception) (w1 w2 w3 : W)
        → tools.quote need w ≡ (ok (inl s), w1)
        → make_decision llm need s budget_tok ≡ ok d
        → d.accept ≡ true
        → tools.settle s w1 ≡ (ok id, w2)
        → tools.activate id (service_for need).kind w2 ≡ (raised x, w3)
        → Outcome w (raised x) w3
    served :
        (s : SignedOffer) (d : DecisionOutput) (id : ℕ) (sid : Text) (w1 w2 w3 : W)
        → tools.quote need w ≡ (ok (inl s), w1)
        → make_decision llm need s budget_tok ≡ ok d
        → d.accept ≡ true
        → tools.settle s w1 ≡ (ok id, w2)
        → tools.activate id (service_for need).kind w2 ≡ (ok sid, w3)
        → Outcome w
            (ok (record (decided s d) { entitlement_id = some id; session_id = some sid }))
            w3

  -- How a call of a tool ends.
  call-cases :
      {A : Type 0} (p : Result A × W)
      → ((a : A) × (w : W) × (p ≡ (ok a, w))) ⊎ ((x : Exception) × (w : W) × (p ≡ (raised x, w)))
  call-cases (ok a, w) = inl (a, w, refl)
  call-cases (raised x, w) = inr (x, w, refl)

  -- A run of the consumer's graph quotes, decides, settles and activates in this order, and stops
  -- at the first that raises, at a decline of the provider or at a decision not to accept; in the
  -- last two cases it returns with nothing settled, and the world is as the quote left it.
  pub consume_lem :
      (w : W) → let (r, w') = consume llm tools (asked need budget_tok) w in Outcome w r w'
  unfolding consume follow weigh purchase
  consume_lem w = elim (call-cases (tools.quote need w)) [
    | inr (x, w1, e) ↦ rw e (unanswered x w1 e)
    | inl (inr d, w1, e) ↦ rw e (declined d w1 e)
    | inl (inl s, w1, e) ↦ elim (Result-cases (make_decision llm need s budget_tok)) [
      | inr (x, p) ↦ rw (e, p) (undecided s x w1 e p)
      | inl (d, p) ↦ elim (Bool-cases d.accept) [
        | inr halts ↦
            let p' = p ∙ ap (λ b. ok (with_accept b d)) halts in
            rw (e, p, halts) (rejected s (with_accept false d) w1 e p' refl)
        | inl takes ↦
            let p' = p ∙ ap (λ b. ok (with_accept b d)) takes in
            let d' = with_accept true d in
            elim (call-cases (tools.settle s w1)) [
              | inr (x, w2, q) ↦ rw (e, p, takes, q) (unsettled s d' x w1 w2 e p' refl q)
              | inl (id, w2, q) ↦ elim (call-cases (tools.activate id (service_for need).kind w2)) [
                | inr (x, w3, t) ↦
                    rw (e, p, takes, q, t) (inactive s d' id x w1 w2 w3 e p' refl q t)
                | inl (sid, w3, t) ↦
                    rw (e, p, takes, q, t) (served s d' id sid w1 w2 w3 e p' refl q t)
              ]
            ]
      ]
    ]
  ]

-- Without a model the consumer accepts exactly the prices below the budget and one token more:
-- the price is rounded down to whole tokens before it is compared.
pub policy-accept_iff :
    (signed : SignedOffer) (budget_tok : ℕ)
    → ((policy signed budget_tok).accept ≡ true) ↔ (signed.offer.price < (budget_tok + 1) * tok)
unfolding policy price_tok
policy-accept_iff signed budget_tok = (λ h. ground (arith, h), λ h. ground (arith, h))
