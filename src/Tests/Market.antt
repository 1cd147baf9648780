-- ===== src/Tests/Market.antt =====
-- Instances of the theorems on the agents' tools: Ada buys and activates ticket #7 over the
-- controller's app.
use a2a_tokenized_provisioni.Base.{
  ℕ, ◌+◌, ◌≡◌, refl, ◌⊎◌, inl, true, none, some, [], replicate, arith, nat_eq, text_eq, text_beq,
}
use a2a_tokenized_provisioni.Base.Decimal.{Text, codes}
use a2a_tokenized_provisioni.Exec.{Exec, ok}
use a2a_tokenized_provisioni.Interfaces.{ServiceNeed, SignedOffer, Decline}
use a2a_tokenized_provisioni.Interfaces.Ports.{EntitlementReader}
use a2a_tokenized_provisioni.Interfaces.Fixtures.{
  ada, canonical_entitlement_view, canonical_signed_offer, bandwidth_need_7, mock_tok,
  resolved_path,
}
use a2a_tokenized_provisioni.Interfaces.Patterns.{is_signature, is_kind}
use a2a_tokenized_provisioni.Controller.Domain.{grants, known_service_types}
use a2a_tokenized_provisioni.Controller.Domain.Order.{Admits}
use a2a_tokenized_provisioni.Agents.Catalogue.{service_for}
use a2a_tokenized_provisioni.Controller.Translators.{ProvisionerCall, apply_bandwidth, dispatch}
use a2a_tokenized_provisioni.Controller.Service.{Wiring, session_id, active_ids}
use a2a_tokenized_provisioni.Chainmcp.Purchase.{
  Transactions, approve_and_fulfill, try_fulfill, lower,
}
use a2a_tokenized_provisioni.Chainmcp.Signing.{Account, Genuine}
use a2a_tokenized_provisioni.Agents.Consumer.{
  asked, consume, ConsumerTools, ConsumerState, policy, price_tok, follow, weigh, purchase,
  make_decision,
}
use a2a_tokenized_provisioni.Agents.Tools.{activate, settle, chain_consumer_tools}
use a2a_tokenized_provisioni.Agents.Tools.Served.{Served, client}
use a2a_tokenized_provisioni.Agents.Tools.Served.Opens.{after_submission, activate-opens}
use a2a_tokenized_provisioni.Agents.Tools.Served.Safe.{consume-Holds, Holds}
use a2a_tokenized_provisioni.Netctl.Mock.{MockNet, mock, no_network, fine, record_applied}
use a2a_tokenized_provisioni.Tests.World.{chain_at, wiring, translated, start_time}

-- a key whose signatures are all zero, and which is always recovered
abbrev zeros : Account
zeros = record { address = ada; sign_message = λ message. replicate 130 b'0' }

abbrev market : Wiring MockNet
market = record wiring { recover = λ message signature. ok ada }

zeros-Genuine : Genuine market.recover zeros
unfolding is_signature
zeros-Genuine = record { sixty_five = λ message. refl; recovers = λ message. refl }

-- Ada's window is open at both requests.
abbrev chain : ℕ → EntitlementReader
chain n = chain_at (start_time + n)

abbrev tokens : ℕ → Text
tokens n = codes "00"

abbrev desk : Served MockNet
desk = record {
  requests = 0;
  service = record {
    auth = record { controller_id = codes "bell"; open_nonces = [] };
    sessions = [];
    seq = 0;
    net = no_network;
  };
}

-- a chain on which every purchase is ticket #7
abbrev tx : Transactions (Served MockNet)
tx = record { approve = λ amount w. (ok tt, w); fulfill = λ signed w. (ok 7, w) }

may_activate :
    Admits canonical_entitlement_view ada ada
      (start_time + 1)
      (active_ids desk.service.sessions)
      (some (codes "bandwidth"))
      known_service_types
unfolding active_ids grants text_beq
may_activate = record {
  by_owner = refl;
  started = omega arith;
  unexpired = omega arith;
  unrevoked = refl;
  translatable = refl;
  granted = refl;
  unbooked = refl;
}

bandwidth_is_kind : is_kind (codes "bandwidth") ≡ true
unfolding is_kind text_beq
bandwidth_is_kind = refl

abbrev call : ProvisionerCall
call = apply_bandwidth (session_id 7 0) resolved_path 50000000 1

call_applied : (dispatch mock call no_network).0 ≡ ok fine
unfolding dispatch record_applied
call_applied = refl

activate-opens_example :
    activate zeros tx mock_tok (client market chain tokens) 7 (codes "bandwidth") desk ≡ (
      ok (session_id 7 0),
      record {
        requests = 2;
        service =
            after_submission tokens desk 7 market canonical_entitlement_view start_time
              (start_time + 1)
              call;
      },
    )
activate-opens_example =
    activate-opens market chain tokens zeros zeros-Genuine desk 7 (codes "bandwidth")
      canonical_entitlement_view canonical_entitlement_view start_time (start_time + 1) call fine
      refl refl refl refl refl (omega arith) bandwidth_is_kind may_activate translated call_applied
      refl tx mock_tok

desk_opens : activate zeros tx mock_tok (client market chain tokens) 7 (codes "bandwidth") desk ≡ (
  ok (session_id 7 0),
  record {
    requests = 2;
    service =
        after_submission tokens desk 7 market canonical_entitlement_view start_time
          (start_time + 1)
          call;
  },
)
desk_opens =
    activate-opens market chain tokens zeros zeros-Genuine desk 7 (codes "bandwidth")
      canonical_entitlement_view canonical_entitlement_view start_time (start_time + 1) call fine
      refl refl refl refl refl (omega arith) bandwidth_is_kind may_activate translated call_applied
      refl tx mock_tok

-- the provider's answer, as the loopback brings it
abbrev loopback : ServiceNeed → Exec (Served MockNet) (SignedOffer ⊎ Decline)
loopback need w = (ok (inl canonical_signed_offer), w)

abbrev tools : ConsumerTools (Served MockNet)
tools = record (chain_consumer_tools zeros tx mock_tok (client market chain tokens)) {
  quote = loopback;
}

abbrev bought : ConsumerState
bought = record {
  need = bandwidth_need_7;
  budget_tok = 15;
  offer = some canonical_signed_offer;
  decision = some (policy canonical_signed_offer 15);
  entitlement_id = some 7;
  session_id = some (session_id 7 0);
}

settles :
    settle zeros tx mock_tok (client market chain tokens) canonical_signed_offer desk ≡ (ok 7, desk)
unfolding settle approve_and_fulfill try_fulfill lower text_beq
settles = refl

consumed : (consume none tools (asked bandwidth_need_7 15) desk).0 ≡ ok bought
unfolding consume follow weigh purchase make_decision policy price_tok service_for
consumed = rw (settles, desk_opens)

consume-Holds_example :
    (id : ℕ) × (some 7 ≡ some id)
    × Holds market chain tokens zeros tx mock_tok id
        (session_id 7 0)
        (consume none tools (asked bandwidth_need_7 15) desk).1
consume-Holds_example =
    consume-Holds market chain tokens zeros tx mock_tok none loopback bandwidth_need_7 15 desk
      bought (session_id 7 0) consumed refl
