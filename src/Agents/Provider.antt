-- ===== src/Agents/Provider.antt =====
-- agents/src/agents/provider_graph.py: the two nodes of the provider's graph. The graph runs
-- `admit`, and then `quote` if the need was admitted. The transcript is left out. The language
-- model and the signing tool are parameters, and may raise.
pub mod Outcomes
pub mod Decisions
use a2a_tokenized_provisioni.Base.{
  ℕ, ◌⊎◌, inl, inr, Bool, true, false, Option, none, some, if◌then◌else◌,
}
use a2a_tokenized_provisioni.Base.Int.{ℤ, pos}
use a2a_tokenized_provisioni.Base.Decimal.{Text, codes}
use a2a_tokenized_provisioni.Exec.{
  Exec, Result, ok, raised, structured_error, pure, lift, modify, ◌>>=◌, ◌>>◌,
}
use a2a_tokenized_provisioni.Interfaces.{ServiceNeed, SignedOffer, Decline}
use a2a_tokenized_provisioni.Agents.Catalogue.{service_for, demand, window_of}
use a2a_tokenized_provisioni.Agents.Ledger.{
  Window, CapacityLedger, try_reserve, hold_until, release,
}

pub record QuoteDecision : Type 0 where
  pub quote : Bool
  pub price_tok : ℤ
  pub reason : Text

-- `llm.structured` for a quote: the need and the list price are what its message says.
abbrev pub QuoteModel : Type 0
QuoteModel = ServiceNeed → (list_price_tok : ℕ) → Result QuoteDecision

-- `ProviderTools.sign_offer`
abbrev pub SignOffer : Type 0
SignOffer = ServiceNeed → (price_tok : ℤ) → Result SignedOffer

-- The readings of the clock in one run: the two of the admission, and that of the quote.
pub record Readings : Type 0 where
  pub swept_at : ℕ
  pub stamped_at : ℕ
  pub quoted_at : ℕ

abbrev pub at_admission : Option Readings → Option (ℕ × ℕ)
at_admission none = none
at_admission (some r) = some (r.swept_at, r.stamped_at)

abbrev pub at_quote : Option Readings → Option ℕ
at_quote none = none
at_quote (some r) = some r.quoted_at

abbrev pub key_of : ServiceNeed → Window
key_of need = ((window_of need).start, (window_of need).end)

-- `except StructuredError`
unfoldable pub or_decline : Result QuoteDecision → Result QuoteDecision
or_decline (ok decision) = ok decision
or_decline (raised structured_error) =
    ok (record { quote = false; price_tok = pos 0; reason = codes "could not price; declining" })
or_decline (raised x) = raised x

-- the decision of `quote`; without a model it is the list price
unfoldable pub decide_quote : Option QuoteModel → ServiceNeed → Result QuoteDecision
unfolding or_decline service_for
decide_quote none need = ok (record {
  quote = true;
  price_tok = pos (service_for need).list_price_tok;
  reason = codes "list price (deterministic slot)";
})
decide_quote (some model) need = or_decline (model need (service_for need).list_price_tok)

abbrev pub no_capacity : Decline
no_capacity = record { reason = codes "insufficient capacity in the requested window" }

module _ (llm : Option QuoteModel) (sign_offer : SignOffer) (clock : Option Readings)
    (need : ServiceNeed) where
  -- what follows the decision
  unfoldable pub answer : QuoteDecision → Exec CapacityLedger (SignedOffer ⊎ Decline)
  answer decision =
      if decision.quote
      then (do
        signed ← lift (sign_offer need decision.price_tok)
        modify (hold_until (at_quote clock) (key_of need) (demand need) signed.offer.valid_until)
        pure (inl signed))
      else (do
        modify (release (at_quote clock) (key_of need) (demand need))
        pure (inr (record { reason = decision.reason })))

  unfoldable pub quote : Exec CapacityLedger (SignedOffer ⊎ Decline)
  unfolding answer
  quote = do decision ← lift (decide_quote llm need); answer decision

  -- `admit`
  unfoldable pub admit : Exec CapacityLedger Bool
  admit l =
      let (fits, l') = try_reserve (at_admission clock) (key_of need) (demand need) l in
      (ok fits, l')

  -- the graph
  unfoldable pub provide : Exec CapacityLedger (SignedOffer ⊎ Decline)
  unfolding admit quote
  provide = do admitted ← admit; if admitted then quote else pure (inr no_capacity)
