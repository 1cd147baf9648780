-- ===== src/Dashboard/Overrules.antt =====
-- orchestrator.py: a decline of Bell's model whose reason says that it could not price.
use a2a_tokenized_provisioni.Base.{
  ◌+◌, ◌≤◌, ◌≡◌, refl, sym, ap, ◌∙◌, ◌⊎◌, inl, inr, true, false, Option, none, some, List, leb,
  arith,
}
use a2a_tokenized_provisioni.Base.Int.{pos}
use a2a_tokenized_provisioni.Exec.{Result, ok}
use a2a_tokenized_provisioni.Interfaces.{ServiceNeed, SignedOffer, Decline}
use a2a_tokenized_provisioni.Agents.Catalogue.{demand, service_for}
use a2a_tokenized_provisioni.Agents.Ledger.{
  Hold, CapacityLedger, holds_of, sum_units, first_reading,
}
use a2a_tokenized_provisioni.Agents.Ledger.Totals.{sum_units-swept}
use a2a_tokenized_provisioni.Agents.Ledger.Admission.{try_reserve_lem, Fits, Run-Fits}
use a2a_tokenized_provisioni.Agents.Provider.{
  QuoteDecision, QuoteModel, SignOffer, Readings, at_admission, at_quote, key_of, decide_quote,
  or_decline, answer, quote, admit, provide,
}
use a2a_tokenized_provisioni.Agents.Provider.Decisions.{Decides-judged, Undecided-judged}
use a2a_tokenized_provisioni.Agents.Provider.Outcomes.{
  Prompt, others, later_others, Outcome, over_capacity, undecided, unsigned, signed, declined,
  provide_lem, provide-Run,
}
use a2a_tokenized_provisioni.Dashboard.{bell_negotiate, contains, could_not_price}

-- With room for the need, and without a model, an offer is signed at the list price.
provide-listed :
    (sign_offer : SignOffer) (clock : Option Readings) (need : ServiceNeed) (l : CapacityLedger)
    (s : SignedOffer)
    → sum_units (others none sign_offer clock need l) + demand need ≤ l.capacity
    → sign_offer need (pos (service_for need).list_price_tok) ≡ ok s
    → (provide none sign_offer clock need l).0 ≡ ok (inl s)
unfolding provide admit quote answer decide_quote
provide-listed sign_offer clock need l s room signs =
    let fits = (try_reserve_lem (at_admission clock) (key_of need) (demand need) l).0 in
    let yes : leb (sum_units (others none sign_offer clock need l) + demand need) l.capacity
        ≡ true =
      ground (arith, room) in
    rw (fits, yes, signs) refl

module _ (model : QuoteModel) (sign_offer : SignOffer) (clock : Option Readings)
    (need : ServiceNeed) (l : CapacityLedger) (d : QuoteDecision)
    (answers : model need (service_for need).list_price_tok ≡ ok d) where
  Outcome-declined :
      {r : Result (SignedOffer ⊎ Decline)} {left : List Hold}
      → sum_units (others (some model) sign_offer clock need l) + demand need ≤ l.capacity
      → d.quote ≡ false
      → Outcome (some model) sign_offer clock need l r left
      → (r ≡ ok (inr (record { reason = d.reason })))
        × (sum_units left ≡ sum_units (later_others (some model) sign_offer clock need l))
  Outcome-declined room declines (over_capacity full) = absurd (omega (arith, room, full))
  Outcome-declined room declines (undecided x fits e) =
      absurd (Undecided-judged model need d x answers e)
  Outcome-declined room declines (unsigned x d' fits e sells p) =
      let q = Decides-judged model need d d' answers e in
      absurd (cc (sym sells ∙ ap (λ (z : QuoteDecision). z.quote) q ∙ declines))
  Outcome-declined room declines (signed s d' fits e sells p) =
      let q = Decides-judged model need d d' answers e in
      absurd (cc (sym sells ∙ ap (λ (z : QuoteDecision). z.quote) q ∙ declines))
  Outcome-declined room declines (declined d' left fits e halts sum) =
      let q = Decides-judged model need d d' answers e in
      (ap (λ (z : QuoteDecision). ok (inr (record { reason = z.reason }))) (q), sum)

-- Where the ledger is within its capacity and has room for the need, a decline of the model whose
-- reason holds the words "could not price" is overruled: Bell signs at the list price.
pub bell_negotiate-overrules :
    (model : QuoteModel) (sign_offer : SignOffer) (clock again_clock : Option Readings)
    (need : ServiceNeed) (l : CapacityLedger) (d : QuoteDecision) (s : SignedOffer)
    → Fits l
    → Prompt clock
    → sum_units (others (some model) sign_offer clock need l) + demand need ≤ l.capacity
    → model need (service_for need).list_price_tok ≡ ok d
    → d.quote ≡ false
    → contains could_not_price d.reason ≡ true
    → sign_offer need (pos (service_for need).list_price_tok) ≡ ok s
    → (bell_negotiate sign_offer clock again_clock need (some model) l).0 ≡ ok (inl s)
unfolding bell_negotiate decide_quote or_decline
bell_negotiate-overrules model sign_offer clock again_clock need l d s fits prompt room judged
      declines says signs =
    let (answered, left) =
      Outcome-declined model sign_offer clock need l d judged room declines
        (provide_lem (some model) sign_offer clock need prompt l) in
    let l' = (provide (some model) sign_offer clock need l).1 in
    let same = (Run-Fits (provide-Run (some model) sign_offer clock need l) fits).1 in
    let kept =
      sum_units-swept (first_reading (at_admission again_clock)) (holds_of l' (key_of need)) in
    let fewer = sum_units-swept (at_quote clock) (others (some model) sign_offer clock need l) in
    let again_room : sum_units (others none sign_offer again_clock need l') + demand need
        ≤ l'.capacity =
      omega (arith, kept, fewer, left, same, room) in
    rw (answered, says) (provide-listed sign_offer again_clock need l' s again_room signs)
