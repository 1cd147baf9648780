-- ===== src/Agents/Tools/Served/Safe.antt =====
-- What a session that the consumer was told of says of the controller's service.
use a2a_tokenized_provisioni.Base.{
  ℕ, ◌+◌, ◌≡◌, ◌≢◌, refl, sym, ap, subst, ◌∙◌, ◌⊎◌, Option, none, some, inl, inr, Bool-cases, arith,
}
use a2a_tokenized_provisioni.Base.Decimal.{Text}
use a2a_tokenized_provisioni.Exec.{
  Exec, Result, ok, raised, runtime_error, Result-cases, raised-ne-ok,
}
use a2a_tokenized_provisioni.Interfaces.{ServiceNeed, SignedOffer, Decline, SessionInfo}
use a2a_tokenized_provisioni.Interfaces.Ports.{EntitlementReader}
use a2a_tokenized_provisioni.Controller.Service.{Service, Wiring}
use a2a_tokenized_provisioni.Controller.App.{
  Request, post_challenge, post_activate, Response, session_info, challenge_response,
  state_response, error_response, unprocessable, server_error, app, handle, respond, valid_request,
}
use a2a_tokenized_provisioni.Controller.App.Stored.{Stored, activate-Stored}
use a2a_tokenized_provisioni.Chainmcp.Purchase.{Transactions}
use a2a_tokenized_provisioni.Chainmcp.Signing.{Account, sign_activation_proof}
use a2a_tokenized_provisioni.Agents.Catalogue.{service_for}
use a2a_tokenized_provisioni.Agents.Consumer.{
  ConsumerTools, ConsumerState, asked, DecisionModel, consume,
}
use a2a_tokenized_provisioni.Agents.Consumer.Outcomes.{
  Outcome, unanswered, declined, undecided, rejected, unsettled, inactive, served, consume_lem,
}
use a2a_tokenized_provisioni.Agents.Tools.{activate, challenge_of, session_of, chain_consumer_tools}
use a2a_tokenized_provisioni.Agents.Tools.Served.{Served, client}

some-ne-none {ℓ} : {A : Type ℓ} {a : A} → none ≢ some a
some-ne-none h = cc

-- what a run returned with
abbrev session_in : Result ConsumerState → Option Text
session_in (ok state) = state.session_id
session_in (raised x) = none

abbrev entitlement_in : Result ConsumerState → Option ℕ
entitlement_in (ok state) = state.entitlement_id
entitlement_in (raised x) = none

abbrev told : Option Text → Result Text
told none = raised runtime_error
told (some sid) = ok sid

session_of-ok :
    (r : Response) (sid : Text)
    → session_of r ≡ ok sid
    → (i : SessionInfo) × (r ≡ session_info i) × (i.session_id ≡ sid)
unfolding session_of
session_of-ok (session_info i) sid h = (i, refl, cc)
session_of-ok (challenge_response c) sid h = cc
session_of-ok (state_response state) sid h = cc
session_of-ok (error_response code error) sid h = cc
session_of-ok unprocessable sid h = cc
session_of-ok server_error sid h = cc

respond-session_info :
    (r : Result SessionInfo) (i : SessionInfo)
    → respond (λ x. session_info x) r ≡ session_info i
    → r ≡ ok i
unfolding respond
respond-session_info (ok j) i h = ground (arith, h)
respond-session_info (raised x) i h = ground (arith, h)

module _ {N : Type 0} (wiring : Wiring N) where
  app-Stored :
      (reader : EntitlementReader) (token : Text) (id : ℕ) (kind nonce signature : Text)
      (s : Service N) (i : SessionInfo)
      → (app wiring reader token (post_activate id kind nonce signature) s).0 ≡ session_info i
      → Stored id i (app wiring reader token (post_activate id kind nonce signature) s).1
  unfolding app handle
  app-Stored reader token id kind nonce signature s i h =
      elim (Bool-cases (valid_request (post_activate id kind nonce signature))) [
        | inl good ↦ rw good (
            activate-Stored wiring i reader id kind nonce signature s
              (respond-session_info _ i (rw good at h)))
        | inr bad ↦ absurd (ground (arith, h, bad))
      ]

  module _ (chain : ℕ → EntitlementReader) (tokens : ℕ → Text) (account : Account)
      (tx : Transactions (Served N)) (tok_address : Text) where
    abbrev http : Request → Exec (Served N) Response
    http = client wiring chain tokens

    -- A session of the service that was opened for `id` and is shown under `sid`.
    abbrev pub Holds : (id : ℕ) (sid : Text) → Served N → Type 0
    Holds id sid w = (i : SessionInfo) × (i.session_id ≡ sid) × Stored id i w.service

    activate-Holds :
        (id : ℕ) (kind sid : Text) (w : Served N)
        → (activate account tx tok_address http id kind w).0 ≡ ok sid
        → Holds id sid (activate account tx tok_address http id kind w).1
    unfolding activate client
    activate-Holds id kind sid w h =
        let n = w.requests in
        let first = app wiring (chain n) (tokens n) (post_challenge id) w.service in
        elim (Result-cases (challenge_of first.0)) [
          | inl (c, p) ↦
              let signature =
                (sign_activation_proof account id c.nonce c.controller_id c.expires_at).0 in
              let second =
                app wiring (chain (n + 1)) (tokens (n + 1))
                  (post_activate id kind c.nonce signature) first.1 in
              let (i, e, f) = session_of-ok second.0 sid (rw p at h) in
              rw p (
                i,
                f,
                app-Stored (chain (n + 1)) (tokens (n + 1)) id kind c.nonce signature first.1 i e,
              )
          | inr (x, p) ↦ absurd (raised-ne-ok (rw p at h))
        ]

    module _ (llm : Option DecisionModel)
        (quote : ServiceNeed → Exec (Served N) (SignedOffer ⊎ Decline)) (need : ServiceNeed)
        (budget_tok : ℕ) where
      abbrev tools : ConsumerTools (Served N)
      tools = record (chain_consumer_tools account tx tok_address http) { quote = quote }

      Outcome-Holds :
          {w : Served N} {r : Result ConsumerState} {w' : Served N} (state : ConsumerState)
          (sid : Text)
          → Outcome llm tools need budget_tok w r w'
          → r ≡ ok state
          → state.session_id ≡ some sid
          → (id : ℕ) × (state.entitlement_id ≡ some id) × Holds id sid w'
      Outcome-Holds state sid (unanswered x w1 a) e h = cc
      Outcome-Holds state sid (declined d w1 a) e h = absurd (some-ne-none (ap session_in e ∙ h))
      Outcome-Holds state sid (undecided s x w1 a b) e h = cc
      Outcome-Holds state sid (rejected s d w1 a b c) e h =
          absurd (some-ne-none (ap session_in e ∙ h))
      Outcome-Holds state sid (unsettled s d x w1 w2 a b c f) e h = cc
      Outcome-Holds state sid (inactive s d id x w1 w2 w3 a b c f g) e h = cc
      Outcome-Holds state sid (served s d id sid' w1 w2 w3 a b c f g) e h = (
        id,
        sym (ap entitlement_in e),
        subst (Holds id sid) (ap (λ (p : Result Text × Served N). p.1) g) (
            activate-Holds id (service_for need).kind sid w2
              (ap (λ (p : Result Text × Served N). p.0) g ∙ ap told (ap session_in e ∙ h))),
      )

      -- A run of the consumer over the controller's app that returns with a session names the
      -- token that it bought, and the service has that session, active and for that token,
      -- whatever the quote, the model, the chain and the network did.
      pub consume-Holds :
          (w : Served N) (state : ConsumerState) (sid : Text)
          → (consume llm tools (asked need budget_tok) w).0 ≡ ok state
          → state.session_id ≡ some sid
          → (id : ℕ) × (state.entitlement_id ≡ some id)
            × Holds id sid (consume llm tools (asked need budget_tok) w).1
      consume-Holds w state sid e h =
          Outcome-Holds state sid (consume_lem llm tools need budget_tok w) e h
