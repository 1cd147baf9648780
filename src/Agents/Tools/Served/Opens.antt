-- ===== src/Agents/Tools/Served/Opens.antt =====
-- The consumer's `activate` against the controller's app: challenge, sign, submit.
use a2a_tokenized_provisioni.Base.{ℕ, ◌+◌, ◌≤◌, ◌≡◌, true, some, [], ◌∷◌, ◌++◌, text_eq}
use a2a_tokenized_provisioni.Base.Decimal.{Text, codes}
use a2a_tokenized_provisioni.Exec.{ok}
use a2a_tokenized_provisioni.Dict
use a2a_tokenized_provisioni.Dict.{get-put_self}
use a2a_tokenized_provisioni.Interfaces.{EntitlementView, ApplyResult, active}
use a2a_tokenized_provisioni.Interfaces.Ports.{EntitlementReader}
use a2a_tokenized_provisioni.Interfaces.Patterns.{is_kind}
use a2a_tokenized_provisioni.Controller.Domain.{known_service_types}
use a2a_tokenized_provisioni.Controller.Domain.Order.{Admits}
use a2a_tokenized_provisioni.Controller.Auth.{nonce_ttl_s, Challenge, issue, verify}
use a2a_tokenized_provisioni.Controller.Auth.Messages.{
  activation_proof_message, activation_proof_message_eq,
}
use a2a_tokenized_provisioni.Controller.Translators.{ProvisionerCall, translate, dispatch}
use a2a_tokenized_provisioni.Controller.Service.{
  Session, Service, Wiring, session_id, active_ids, view_of, known_id, info, challenge,
}
use a2a_tokenized_provisioni.Controller.Activate.Sound.{Authorized}
use a2a_tokenized_provisioni.Controller.Activate.Outcome.{activate_returns}
use a2a_tokenized_provisioni.Controller.App.{
  post_challenge, post_activate, challenge_response, session_info, app,
}
use a2a_tokenized_provisioni.Chainmcp.Purchase.{Transactions}
use a2a_tokenized_provisioni.Chainmcp.Signing.{Account, Genuine, sign_activation_proof}
use a2a_tokenized_provisioni.Agents.Tools.{activate}
use a2a_tokenized_provisioni.Agents.Tools.Served.{Served, client}

module _ {N : Type 0} (tokens : ℕ → Text) (w : Served N) (id : ℕ) where
  open w use {requests, service}

  -- the answer to a challenge at a time, and the service after it
  abbrev pub challenged : (asked : ℕ) → Challenge
  challenged asked = (issue (tokens requests) id asked service.auth).0

  abbrev pub opened : (asked : ℕ) → Service N
  opened asked = record service { auth = (issue (tokens requests) id asked service.auth).1 }

  module _ (wiring : Wiring N) (view : EntitlementView) (asked now : ℕ)
      (call : ProvisionerCall) where
    -- the session of the submission's answer, and the service after it
    abbrev pub opened_session : Session
    opened_session = record {
      session_id = session_id id service.seq;
      entitlement_id = id;
      state = active;
      since = now;
      expires_at = view.end_time;
    }

    abbrev pub after_submission : Service N
    after_submission = record {
      auth = record service.auth {
        open_nonces =
            Dict.remove
              (Dict.put service.auth.open_nonces (challenged asked).nonce (id, asked + nonce_ttl_s))
              (challenged asked).nonce;
      };
      sessions = Dict.put service.sessions opened_session.session_id opened_session;
      seq = service.seq + 1;
      net = (dispatch wiring.provisioner call service.net).1;
    }

module _ {N : Type 0} (wiring : Wiring N) (chain : ℕ → EntitlementReader) (tokens : ℕ → Text)
    (account : Account) (genuine : Genuine wiring.recover account) (w : Served N) (id : ℕ)
    (kind : Text) where
  open w use {requests, service}

  -- the chain at the challenge and at the submission
  abbrev at_challenge : EntitlementReader
  at_challenge = chain requests

  abbrev at_submission : EntitlementReader
  at_submission = chain (requests + 1)

  abbrev proof : (asked : ℕ) → Text
  proof asked =
      let challenge = challenged tokens w id asked in
      (sign_activation_proof account id challenge.nonce challenge.controller_id
        challenge.expires_at).0

  app-challenge :
      (view : EntitlementView) (now : ℕ)
      → at_challenge.get id ≡ ok view
      → at_challenge.chain_time ≡ ok now
      → app wiring at_challenge (tokens requests) (post_challenge id) service
        ≡ (challenge_response (challenged tokens w id now), opened tokens w id now)
  unfolding app challenge view_of
  app-challenge view now viewed timed = rw (viewed, known_id, timed)

  module _ (view0 view : EntitlementView) (asked now : ℕ) (call : ProvisionerCall)
      (result : ApplyResult) (known : at_challenge.get id ≡ ok view0)
      (asked_at : at_challenge.chain_time ≡ ok asked) (viewed : at_submission.get id ≡ ok view)
      (owned : at_submission.owner_of id ≡ ok account.address)
      (timed : at_submission.chain_time ≡ ok now) (in_time : now ≤ asked + nonce_ttl_s)
      (kind_known : is_kind kind ≡ true)
      (permitted : Admits view account.address account.address now
        (active_ids service.sessions)
        (some kind)
        known_service_types)
      (translated : translate (session_id id service.seq) view wiring.resource_map ≡ ok (call ∷ []))
      (applied : (dispatch wiring.provisioner call service.net).0 ≡ ok result)
      (accepted : result.ok ≡ true) where
    authorized :
        Authorized wiring at_submission id kind
          (challenged tokens w id asked).nonce
          (proof asked)
          (opened tokens w id asked)
          view
          now
    unfolding issue sign_activation_proof
    authorized =
        let nonce : Text = codes "0x" ++ tokens requests in
        record {
          owner = account.address;
          viewed = viewed;
          owned = owned;
          timed = timed;
          proven = record {
            expires_at = asked + nonce_ttl_s;
            is_open = get-put_self service.auth.open_nonces nonce (id, asked + nonce_ttl_s);
            in_time = in_time;
            signed =
                rw
                  (← activation_proof_message_eq service.auth.controller_id nonce id
                    (asked + nonce_ttl_s))
                  (genuine.recovers (
                    activation_proof_message service.auth.controller_id nonce id
                      (asked + nonce_ttl_s)));
          };
          permitted = permitted;
        }

    app-submission :
        app wiring at_submission
          (tokens (requests + 1))
          (post_activate id kind (challenged tokens w id asked).nonce (proof asked))
          (opened tokens w id asked)
        ≡ (
          session_info (info (opened_session tokens w id wiring view asked now call)),
          after_submission tokens w id wiring view asked now call,
        )
    unfolding app verify issue sign_activation_proof
    app-submission = rw (
      kind_known,
      genuine.sixty_five (
          activation_proof_message service.auth.controller_id (codes "0x" ++ tokens requests) id
            (asked + nonce_ttl_s)),
      activate_returns wiring at_submission id kind (challenged tokens w id asked).nonce
          (proof asked) (opened tokens w id asked) view now authorized call result translated
          applied accepted,
    )

    -- Where the account's key is what eth_account documents, the consumer's challenge, signature
    -- and submission return the id of a new session that is active until the entitlement's end,
    -- if the entitlement admits the account's address at the submission, no later than the
    -- challenge's expiry, and its one call is accepted by the network.
    pub activate-opens :
        (tx : Transactions (Served N)) (tok_address : Text)
        → activate account tx tok_address (client wiring chain tokens) id kind w ≡ (
          ok (opened_session tokens w id wiring view asked now call).session_id,
          record {
            requests = requests + 1 + 1;
            service = after_submission tokens w id wiring view asked now call;
          },
        )
    unfolding activate client
    activate-opens tx tok_address = rw (app-challenge view0 asked known asked_at, app-submission)
