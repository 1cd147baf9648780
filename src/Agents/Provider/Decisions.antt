-- ===== src/Agents/Provider/Decisions.antt =====
-- provider_graph.py: what the `quote` node decides, by what the model answers.
use a2a_tokenized_provisioni.Base.{◌≡◌, ◌≢◌, refl, true, false, Option, none, some, sym, ◌∙◌, ap}
use a2a_tokenized_provisioni.Base.Int.{pos}
use a2a_tokenized_provisioni.Base.Decimal.{codes}
use a2a_tokenized_provisioni.Exec.{Exception, Result, ok, raised, raised-ne-ok, structured_error}
use a2a_tokenized_provisioni.Interfaces.{ServiceNeed}
use a2a_tokenized_provisioni.Agents.Catalogue.{service_for}
use a2a_tokenized_provisioni.Agents.Provider.{QuoteDecision, QuoteModel, or_decline, decide_quote}

module _ (llm : Option QuoteModel) (need : ServiceNeed) where
  -- The decisions of a run: a sale at the list price without a model, the model's own with one,
  -- and against a sale where the model's answer had no usable form.
  pub data Decides (d : QuoteDecision) : Type 0 where
    listed :
        llm ≡ none
        → d ≡ record {
          quote = true;
          price_tok = pos (service_for need).list_price_tok;
          reason = codes "list price (deterministic slot)";
        }
        → Decides d
    judged :
        (model : QuoteModel)
        → llm ≡ some model
        → model need (service_for need).list_price_tok ≡ ok d
        → Decides d
    unpriced :
        (model : QuoteModel)
        → llm ≡ some model
        → model need (service_for need).list_price_tok ≡ raised structured_error
        → d
          ≡ record { quote = false; price_tok = pos 0; reason = codes "could not price; declining" }
        → Decides d

  -- The model raised something else.
  abbrev pub Undecided : Exception → Type 0
  Undecided x =
      (model : QuoteModel) × (llm ≡ some model)
      × (model need (service_for need).list_price_tok ≡ raised x)
      × (x ≢ structured_error)

  judged-Decides :
      (model : QuoteModel) (d : QuoteDecision)
      → llm ≡ some model
      → (r : Result QuoteDecision) → model need (service_for need).list_price_tok ≡ r
      → or_decline r ≡ ok d
      → Decides d
  unfolding or_decline
  judged-Decides model d m (ok decision) e h = judged model m (e ∙ h)
  judged-Decides model d m (raised structured_error) e h = unpriced model m e (cc)
  judged-Decides model d m (raised x) e h = absurd (cc)

  judged-Undecided :
      (model : QuoteModel) (x : Exception)
      → llm ≡ some model
      → (r : Result QuoteDecision) → model need (service_for need).list_price_tok ≡ r
      → or_decline r ≡ raised x
      → Undecided x
  unfolding or_decline
  judged-Undecided model x m (ok decision) e h = absurd (cc)
  judged-Undecided model x m (raised structured_error) e h = absurd (cc)
  judged-Undecided model x m (raised y) e h = (model, m, e ∙ h, λ p. cc)

pub decide_quote-Decides :
    (llm : Option QuoteModel) (need : ServiceNeed) (d : QuoteDecision)
    → decide_quote llm need ≡ ok d
    → Decides llm need d
unfolding decide_quote
decide_quote-Decides none need d h = listed refl (cc)
decide_quote-Decides (some model) need d h =
    judged-Decides (some model) need model d refl (model need (service_for need).list_price_tok)
      refl h

pub decide_quote-Undecided :
    (llm : Option QuoteModel) (need : ServiceNeed) (x : Exception)
    → decide_quote llm need ≡ raised x
    → Undecided llm need x
unfolding decide_quote
decide_quote-Undecided none need x h = absurd (cc)
decide_quote-Undecided (some model) need x h =
    judged-Undecided (some model) need model x refl (model need (service_for need).list_price_tok)
      refl h

-- With a model that answers, its answer is the decision.
pub Decides-judged :
    (model : QuoteModel) (need : ServiceNeed) (d d' : QuoteDecision)
    → model need (service_for need).list_price_tok ≡ ok d
    → Decides (some model) need d'
    → d' ≡ d
Decides-judged model need d d' h (listed e p) = absurd (cc e)
Decides-judged model need d d' h (judged other e p) =
    let same : other ≡ model = cc in
    let own : model need (service_for need).list_price_tok ≡ ok d' =
      ap (λ (m : QuoteModel). m need (service_for need).list_price_tok) (sym same) ∙ p in
    let results : ok d' ≡ ok d = sym own ∙ h in cc results
Decides-judged model need d d' h (unpriced other e p q) =
    let same : other ≡ model = cc in
    let own : model need (service_for need).list_price_tok ≡ raised structured_error =
      ap (λ (m : QuoteModel). m need (service_for need).list_price_tok) (sym same) ∙ p in
    absurd (raised-ne-ok (sym own ∙ h))

pub Undecided-judged :
    (model : QuoteModel) (need : ServiceNeed) (d : QuoteDecision) (x : Exception)
    → model need (service_for need).list_price_tok ≡ ok d
    → Undecided (some model) need x
    → ⊥
Undecided-judged model need d x h (other, e, p, q) =
    let same : other ≡ model = cc in
    let own : model need (service_for need).list_price_tok ≡ raised x =
      ap (λ (m : QuoteModel). m need (service_for need).list_price_tok) (sym same) ∙ p in
    raised-ne-ok (sym own ∙ h)
