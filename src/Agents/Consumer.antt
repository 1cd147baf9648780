-- ===== src/Agents/Consumer.antt =====
-- agents/src/agents/consumer_graph.py and decision.py: the consumer's graph, over the outside world
-- `W` that its tools change. The transcript is left out. The language model is a parameter.
pub mod Outcomes
use a2a_tokenized_provisioni.Base.{
  ℕ, ◌/◌, ◌++◌, ◌⊎◌, inl, inr, Bool, true, false, Option, none, some, leb, if◌then◌else◌,
}
use a2a_tokenized_provisioni.Base.Decimal.{Text, codes, decimal}
use a2a_tokenized_provisioni.Exec.{
  Exec, Result, ok, raised, structured_error, pure, lift, ◌>>=◌, ◌>>◌,
}
use a2a_tokenized_provisioni.Interfaces.{ServiceNeed, SignedOffer, Decline, DecisionOutput}
use a2a_tokenized_provisioni.Agents.Catalogue.{service_for}

-- `ConsumerTools`
pub record ConsumerTools (W : Type 0) : Type 0 where
  pub quote : ServiceNeed → Exec W (SignedOffer ⊎ Decline)
  pub settle : SignedOffer → Exec W ℕ
  pub activate : (entitlement_id : ℕ) (kind : Text) → Exec W Text

pub record ConsumerState : Type 0 where
  pub need : ServiceNeed
  pub budget_tok : ℕ
  pub offer : Option SignedOffer
  pub decision : Option DecisionOutput
  pub entitlement_id : Option ℕ
  pub session_id : Option Text

-- `ConsumerState(need, budget_tok)`
abbrev pub asked : ServiceNeed → ℕ → ConsumerState
asked need budget_tok = record {
  need = need;
  budget_tok = budget_tok;
  offer = none;
  decision = none;
  entitlement_id = none;
  session_id = none;
}

-- 10**18
abbrev pub tok : ℕ
tok = 1000000000000000000

-- `int(offer.offer.price) // 10**18`
unfoldable pub price_tok : SignedOffer → ℕ
price_tok signed = signed.offer.price / tok

-- `client.structured` for a decision: its message is of these three
abbrev pub DecisionModel : Type 0
DecisionModel = ServiceNeed → SignedOffer → (budget_tok : ℕ) → Result DecisionOutput

-- `except StructuredError` of `decide`
unfoldable pub or_reject : Result DecisionOutput → Result DecisionOutput
or_reject (ok decision) = ok decision
or_reject (raised structured_error) =
    ok (record { accept = false; reason = codes "could not obtain a valid decision; declining" })
or_reject (raised x) = raised x

-- `decide`
unfoldable pub decide :
    DecisionModel → ServiceNeed → SignedOffer → (budget_tok : ℕ) → Result DecisionOutput
unfolding or_reject
decide model need signed budget_tok = or_reject (model need signed budget_tok)

abbrev pub verdict : (within : Bool) → Text
verdict within = if within then codes "within" else codes "over"

-- the deterministic policy
unfoldable pub policy : SignedOffer → (budget_tok : ℕ) → DecisionOutput
unfolding price_tok
policy signed budget_tok =
    let price = price_tok signed in
    let within = leb price budget_tok in
    record {
      accept = within;
      reason =
          codes "deterministic policy: "
          ++ (decimal price
              ++ (codes " TOK "
                  ++ (verdict within
                      ++ (codes " budget " ++ (decimal budget_tok ++ codes " TOK")))));
    }

-- `make_decision`
unfoldable pub make_decision :
    Option DecisionModel → ServiceNeed → SignedOffer → (budget_tok : ℕ) → Result DecisionOutput
unfolding policy decide
make_decision none need signed budget_tok = ok (policy signed budget_tok)
make_decision (some model) need signed budget_tok = decide model need signed budget_tok

module _ {W : Type 0} (llm : Option DecisionModel) (tools : ConsumerTools W) where
  -- the nodes `settle`, `activate` and `report`
  unfoldable pub purchase : SignedOffer → ConsumerState → Exec W ConsumerState
  purchase signed state = do
    id ← tools.settle signed
    sid ← tools.activate id (service_for state.need).kind
    pure (record state { entitlement_id = some id; session_id = some sid })

  -- the node `decide`, and the edge after it
  unfoldable pub weigh : SignedOffer → ConsumerState → Exec W ConsumerState
  unfolding purchase
  weigh signed state = do
    decision ← lift (make_decision llm state.need signed state.budget_tok)
    if decision.accept
        then purchase signed (record state { decision = some decision })
        else pure (record state { decision = some decision })

  -- the node `request_quote`, and the edge after it
  unfoldable pub follow : SignedOffer ⊎ Decline → ConsumerState → Exec W ConsumerState
  unfolding weigh
  follow (inl signed) state = weigh signed (record state { offer = some signed })
  follow (inr decline) state = pure state

  unfoldable pub consume : ConsumerState → Exec W ConsumerState
  unfolding follow
  consume state = do result ← tools.quote state.need; follow result state
