-- ===== src/Dashboard.antt =====
-- e2e/src/e2e/dashboard/orchestrator.py: the console's judgment slots, its checks of a ticket, and
-- the flow of a purchase. What the flow calls is a parameter over a state `E`, and may raise; the
-- events that are emitted, the warming of the endpoint and the views of the router are left out.
pub mod Slots
pub mod Flow
pub mod Overrules
use a2a_tokenized_provisioni.Base.{
  ℕ, ◌/◌, ◌^◌, ◌⊎◌, inl, inr, Bool, true, false, not, Option, none, some, List, [], ◌∷◌, ◌==◌, ◌&&◌,
  ◌||◌, leb, elem, if◌then◌else◌, starts_with, text_eq, nat_eq,
}
use a2a_tokenized_provisioni.Base.Decimal.{Text, codes}
use a2a_tokenized_provisioni.Exec.{Exec, Result, ok, raised, after, pure, modify, ◌>>=◌, ◌>>◌}
use a2a_tokenized_provisioni.Dict
use a2a_tokenized_provisioni.Dict.{Dict}
use a2a_tokenized_provisioni.Interfaces.{
  ServiceNeed, SignedOffer, Decline, SessionInfo, EntitlementView,
}
use a2a_tokenized_provisioni.Controller.Auth.{Challenge}
use a2a_tokenized_provisioni.Controller.Domain.{known_service_types}
use a2a_tokenized_provisioni.Agents.Ledger.{CapacityLedger}
use a2a_tokenized_provisioni.Agents.Provider.{QuoteModel, SignOffer, Readings, provide}

-- `llm_live`, of `llm_status` and `llm_muted`
unfoldable pub llm_live : (llm_status : Text) (llm_muted : Bool) → Bool
llm_live llm_status llm_muted = llm_status == codes "up" && not llm_muted

-- `word in text`
unfoldable pub contains : (word text : Text) → Bool
contains word [] = starts_with word []
contains word (c ∷ text) = starts_with word (c ∷ text) || contains word text

abbrev pub could_not_price : Text
could_not_price = codes "could not price"

-- `_bell_negotiate`: the graph, and again without the model where its decline says so; the clock
-- is read anew
module _ (sign_offer : SignOffer) (clock again_clock : Option Readings) (need : ServiceNeed) where
  abbrev pub again :
      Option QuoteModel → SignedOffer ⊎ Decline → Exec CapacityLedger (SignedOffer ⊎ Decline)
  again none result = pure result
  again (some model) (inl signed) = pure (inl signed)
  again (some model) (inr decline) =
      if contains could_not_price decline.reason
      then provide none sign_offer again_clock need
      else pure (inr decline)

  unfoldable pub bell_negotiate : Option QuoteModel → Exec CapacityLedger (SignedOffer ⊎ Decline)
  unfolding contains
  bell_negotiate llm = do result ← provide llm sign_offer clock need; again llm result

-- `_ada_decide` without a model: `int(price) // 10**18 <= budget_tok`
unfoldable pub ada_accepts : SignedOffer → (budget_tok : ℕ) → Bool
ada_accepts signed budget_tok = leb (signed.offer.price / 10 ^ 18) budget_tok

-- `_predicate_checks`: owner, started, not expired, not revoked, in scope, no conflict
unfoldable pub predicate_checks : EntitlementView → (now : ℕ) → List Bool
predicate_checks view now =
    true
    ∷ leb view.start_time now
    ∷ not (leb view.end_time now)
    ∷ not view.revoked
    ∷ elem view.service_type known_service_types
    ∷ true
    ∷ []

-- what `provision` calls, in its order
pub record Pipeline (E : Type 0) : Type 0 where
  pub ensure_started : Exec E (Unit {0})
  pub negotiate : Exec E (SignedOffer ⊎ Decline)
  pub decide : SignedOffer → Exec E Bool
  pub fulfill_offer : SignedOffer → Exec E ℕ
  -- the reads of the chain that are shown
  pub show_ticket : (entitlement_id : ℕ) → Exec E (Unit {0})
  pub increase_time : Exec E (Unit {0})
  pub challenge : (entitlement_id : ℕ) → Exec E Challenge
  pub sign_proof : (entitlement_id : ℕ) → Challenge → Exec E Text
  pub show_checks : (entitlement_id : ℕ) → Exec E (Unit {0})
  pub activate : (entitlement_id : ℕ) (kind nonce signature : Text) → Exec E SessionInfo
  pub show_enforcement : SessionInfo → Exec E (Unit {0})

-- `sessions`, by entitlement, and `last_service`
pub record Console (E : Type 0) : Type 0 where
  pub sessions : Dict ℕ (Option Text)
  pub last_service : Text
  pub rest : E

-- `sessions.setdefault(eid, None)`
abbrev pub default_at : ℕ → Option (Option Text) → Dict ℕ (Option Text) → Dict ℕ (Option Text)
default_at id none sessions = Dict.put sessions id none
default_at id (some known) sessions = sessions

unfoldable pub set_default : (entitlement_id : ℕ) → Dict ℕ (Option Text) → Dict ℕ (Option Text)
set_default id sessions = default_at id (Dict.get sessions id) sessions

module _ {E : Type 0} (p : Pipeline E) (service : Text) where
  abbrev pub on_rest : {A : Type 0} → Exec E A → Exec (Console E) A
  on_rest m c = let (r, rest) = m c.rest in (r, record c { rest = rest })

  -- from the entitlement on
  unfoldable pub activate_ticket : (entitlement_id : ℕ) → Exec (Console E) (Unit {0})
  activate_ticket id = do
    on_rest (p.show_ticket id)
    on_rest p.increase_time
    challenge ← on_rest (p.challenge id)
    signature ← on_rest (p.sign_proof id challenge)
    on_rest (p.show_checks id)
    info ← on_rest (p.activate id service challenge.nonce signature)
    modify (λ c. record c { sessions = Dict.put c.sessions id (some info.session_id) })
    on_rest (p.show_enforcement info)

  -- from the accepted offer on
  unfoldable pub buy : SignedOffer → Exec (Console E) (Unit {0})
  unfolding set_default activate_ticket
  buy offer = do
    id ← on_rest (p.fulfill_offer offer)
    modify (λ c. record c { sessions = set_default id c.sessions })
    activate_ticket id

  -- what follows the negotiation
  unfoldable pub judge_offer : SignedOffer ⊎ Decline → Exec (Console E) (Unit {0})
  unfolding buy
  judge_offer (inr decline) = pure tt
  judge_offer (inl offer) = do
    accept ← on_rest (p.decide offer)
    if accept then buy offer else pure tt

  -- the body of the `try`
  unfoldable pub attempt : Exec (Console E) (Unit {0})
  unfolding judge_offer
  attempt = do result ← on_rest p.negotiate; judge_offer result

  unfoldable pub provision : Exec (Console E) (Unit {0})
  unfolding attempt
  provision = do
    on_rest p.ensure_started
    modify (λ c. record c { last_service = service })
    λ c. (ok tt, (attempt c).1)
