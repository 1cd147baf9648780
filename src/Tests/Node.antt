-- ===== src/Tests/Node.antt =====
-- Instances of the theorems on the chain's client, over a small node.
use a2a_tokenized_provisioni.Base.{
  ℕ, ◌+◌, ◌-◌, ◌≡◌, ◌⊎◌, sym, ap, ◌==◌, false, List, [], ◌∷◌, All, if◌then◌else◌, nat_eq,
}
use a2a_tokenized_provisioni.Base.Decimal.{codes}
use a2a_tokenized_provisioni.Exec.{
  Exception, Result, ok, raised, key_error, value_error, chain_revert,
}
use a2a_tokenized_provisioni.Interfaces.Fixtures.{
  ada, bell, canonical_entitlement_view, canonical_signed_offer, mock_tok,
}
use a2a_tokenized_provisioni.Chainmcp.Client.{
  Call, returns, reverts, fails, Entry, Views, nonexistent,
}
use a2a_tokenized_provisioni.Chainmcp.Watch.{Round, Watcher, watch}
use a2a_tokenized_provisioni.Chainmcp.Watch.Delivery.{
  ids_of, Honest, Follows, CaughtUp, watch-Follows,
}
use a2a_tokenized_provisioni.Chainmcp.Purchase.{Transactions, approve_and_fulfill}
use a2a_tokenized_provisioni.Chainmcp.Purchase.Address.{SameText}
use a2a_tokenized_provisioni.Chainmcp.Purchase.Allowance.{Erc20, Outcome, approve_and_fulfill_lem}

abbrev entry : Entry
entry = record {
  issuer = bell;
  service_type = 0;
  resource_id = canonical_entitlement_view.resource_id;
  params_blob = [];
  start_time = 1757944800;
  end_time = 1757952000;
  revoked = false;
  terms_hash = canonical_entitlement_view.terms_hash;
}

-- a contract with ticket #7 alone
abbrev views : Views
views = record {
  call_owner_of = λ id. if id == 7 then returns ada else reverts nonexistent;
  call_entitlements = λ id. returns entry;
  latest_timestamp = returns 1757944800;
  decode_bandwidth = λ blob. ok (50000000, 1);
  decode_telemetry = λ blob. raised key_error;
}

-- #7 is revoked in block 12
abbrev block : ℕ → List ℕ
block n = if n == 12 then 7 ∷ [] else []

abbrev answering : Round
answering = record {
  head = returns 13;
  logs = λ from_block to_block. returns (ids_of block from_block (to_block + 1 - from_block));
}

abbrev broken : Round
broken = record { head = fails; logs = λ from_block to_block. fails }

abbrev watcher : Watcher
watcher = record { last_seen = 10; calls = [] }

honest : All (Honest block) (broken ∷ answering ∷ [])
honest =
    (λ from_block to_block events e. absurd (failed e), (λ from_block to_block events e. cc, tt))
  where
    failed : {events : List ℕ} → ¬ (◌≡◌ {A = Call (List ℕ)} fails (returns events))
    failed e = cc

watch-Follows_example :
    Follows block (0 ∷ 1 ∷ []) watcher (watch (0 ∷ 1 ∷ []) (broken ∷ answering ∷ []) watcher)
    × CaughtUp (broken ∷ answering ∷ []) (watch (0 ∷ 1 ∷ []) (broken ∷ answering ∷ []) watcher)
watch-Follows_example = watch-Follows block (0 ∷ 1 ∷ []) (broken ∷ answering ∷ []) watcher honest

-- a settlement that refuses every purchase; the state is the allowance
abbrev refusing : Transactions ℕ
refusing = record {
  approve = λ amount w. (ok tt, amount);
  fulfill = λ signed w. (raised (chain_revert (codes "OfferExpired")), w);
}

refusal_ok : {x : Exception} {id : ℕ} → ¬ (◌≡◌ {A = Result ℕ} (raised x) (ok id))
refusal_ok e = cc

refusing-Erc20 : Erc20 refusing (λ w. w)
refusing-Erc20 = record {
  approved = λ amount w v e. sym (ap (λ r. r.1) e);
  taken = λ signed id w v e. absurd (refusal_ok (ap (λ r. r.0) e));
}

approve_and_fulfill_lem_example :
    let (r, v) = approve_and_fulfill refusing mock_tok canonical_signed_offer 0 in
    ((¬ SameText canonical_signed_offer.offer.payment_token mock_tok)
      × (r ≡ raised value_error)
      × (v ≡ 0))
    ⊎ (SameText canonical_signed_offer.offer.payment_token mock_tok
        × Outcome refusing (λ w. w) refusing-Erc20 mock_tok canonical_signed_offer 0 r v)
approve_and_fulfill_lem_example =
    approve_and_fulfill_lem refusing (λ w. w) refusing-Erc20 mock_tok canonical_signed_offer 0
