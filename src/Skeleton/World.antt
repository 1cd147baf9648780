-- ===== src/Skeleton/World.antt =====
-- e2e/src/e2e/skeleton/worlds.py: `MockWorld`, which ties the chain, the stub controller and the
-- recording network together, and the scripts of scripted_agents.py. The stub watches the chain,
-- so a revocation runs its callback. The other worlds start processes.
pub mod Steps
pub mod Mirrors
pub mod Ticks
pub mod Revokes
use a2a_tokenized_provisioni.Base.{
  ℕ, ◌-◌, ◌*◌, ◌≡◌, Bool, true, not, Option, none, some, List, [], ◌∷◌, ◌&&◌, elem, text_eq,
}
use a2a_tokenized_provisioni.Base.Decimal.{Text, codes}
use a2a_tokenized_provisioni.Exec.{Exec, Result, ok, raised, key_error, ◌>>=◌, ◌>>◌}
use a2a_tokenized_provisioni.Dict
use a2a_tokenized_provisioni.Interfaces.{ServiceNeed, SignedOffer, DecisionOutput, SessionState}
use a2a_tokenized_provisioni.Interfaces.Ports.{EntitlementReader}
use a2a_tokenized_provisioni.Interfaces.Fixtures.{
  ada, bell, price_10_tok, window, canonical_signed_offer,
}
use a2a_tokenized_provisioni.Netctl.Mock.{MockNet, Applied, bandwidth, telemetry, mock, no_network}
use a2a_tokenized_provisioni.Skeleton.Chain
use a2a_tokenized_provisioni.Skeleton.Chain.{FakeChain, balance}
use a2a_tokenized_provisioni.Skeleton.Chain.History.{
  IsSound, genesis, genesis-IsSound, by_fulfill, by_revoke, by_advance, Step-Extends,
}
use a2a_tokenized_provisioni.Skeleton.Chain.Uses.{reader}
use a2a_tokenized_provisioni.Skeleton.Stub
use a2a_tokenized_provisioni.Skeleton.Stub.{StubController}

-- `ScriptedProvider.quote`
abbrev pub scripted_quote : ServiceNeed → SignedOffer
scripted_quote need = canonical_signed_offer

-- `ScriptedConsumer.decide`
abbrev pub scripted_decide : ServiceNeed → SignedOffer → DecisionOutput
scripted_decide need signed = record {
  accept = true;
  reason = codes "meets need; price within budget";
}

abbrev pub seed_tok : ℕ
seed_tok = price_10_tok * 5

abbrev pub story_time : ℕ
story_time = window.start - 1680

-- The network is the stub's; a chain is sound from its start on, which makes it the stub's reader.
pub record MockWorld : Type 0 where
  pub chain : FakeChain
  pub sound : IsSound chain
  pub controller : StubController MockNet

abbrev pub new_world : MockWorld
new_world = record {
  chain = genesis story_time 7 ((ada, seed_tok) ∷ (bell, 0) ∷ []);
  sound = genesis-IsSound story_time 7 ((ada, seed_tok) ∷ (bell, 0) ∷ []);
  controller = record {
    sessions = [];
    open_nonces = [];
    nonce_seq = 0;
    session_seq = 0;
    net = no_network;
  };
}

abbrev pub on_chain :
    {A : Type 0} (m : Exec FakeChain A)
    → ((c : FakeChain) → IsSound c → IsSound (m c).1)
    → Exec MockWorld A
on_chain m keeps w =
    ((m w.chain).0, record w { chain = (m w.chain).1; sound = keeps w.chain w.sound })

abbrev pub on_controller :
    {A : Type 0} → (EntitlementReader → Exec (StubController MockNet) A) → Exec MockWorld A
on_controller f w =
    let (r, s) = f (reader w.chain w.sound) w.controller in (r, record w { controller = s })

-- `quote_targeted`
unfoldable pub quote_targeted : (consumer : Text) → SignedOffer
quote_targeted consumer =
    let signed = canonical_signed_offer in
    record signed { offer = record signed.offer { consumer = consumer } }

unfoldable pub fulfill : SignedOffer → (buyer : Text) → Exec MockWorld ℕ
fulfill signed buyer =
    on_chain (Chain.fulfill signed buyer) (λ c s. (Step-Extends (by_fulfill signed buyer) s).sound)

unfoldable pub balance_of : Text → MockWorld → ℕ
balance_of address w = balance w.chain.balances address

unfoldable pub salt_consumed : SignedOffer → MockWorld → Bool
salt_consumed signed w = elem signed.offer.salt w.chain.consumed

unfoldable pub advance_time : ℕ → Exec MockWorld (Unit {0})
advance_time seconds =
    on_chain (Chain.advance seconds) (λ c s. (Step-Extends (by_advance seconds) s).sound)

-- `revoke` of the chain, whose one watcher is the stub's `_on_revoked`
unfoldable pub revoke : (entitlement_id : ℕ) → Exec MockWorld (Unit {0})
revoke id =
    on_chain (Chain.revoke id) (λ c s. (Step-Extends (by_revoke id) s).sound)
    >> on_controller (λ chain. Stub.on_revoked mock chain id)

-- `record["capacity_bps"]` and `record["qos_class"]`
unfoldable pub terms_of : Option Applied → Result (Option (ℕ × ℕ))
terms_of none = ok none
terms_of (some (bandwidth resolved capacity_bps qos_class)) = ok (some (capacity_bps, qos_class))
terms_of (some (telemetry target sensor_paths collector_endpoint sample_interval_s)) =
    raised key_error

unfoldable pub provisioned : (session_id : Text) → MockWorld → Result (Option (ℕ × ℕ))
unfolding terms_of
provisioned sid w = terms_of (Dict.get w.controller.net.applied sid)

unfoldable pub absent : Option Applied → Bool
absent none = true
absent (some a) = not true

unfoldable pub is_torn_down : (session_id : Text) → MockWorld → Bool
unfolding absent
is_torn_down sid w =
    elem sid w.controller.net.torn_down && absent (Dict.get w.controller.net.applied sid)

-- the controller's methods, in the world
unfoldable pub challenge : (entitlement_id : ℕ) → Exec MockWorld Text
challenge id = on_controller (λ chain. Stub.challenge id)

unfoldable pub activate : (entitlement_id : ℕ) (requester nonce : Text) → Exec MockWorld Text
activate id requester nonce = on_controller (λ chain. Stub.activate mock chain id requester nonce)

unfoldable pub teardown : (session_id : Text) → Exec MockWorld (Unit {0})
teardown sid = on_controller (λ chain. Stub.teardown mock sid)

unfoldable pub tick : Exec MockWorld (Unit {0})
tick = on_controller (λ chain. Stub.tick mock chain)

unfoldable pub state_of : (session_id : Text) → MockWorld → Result SessionState
state_of sid w = Stub.state_of sid w.controller

-- A line of a script.
pub data Line : Type 0 where
  buys : SignedOffer → (buyer : Text) → Line
  asks : (entitlement_id : ℕ) → Line
  activates : (entitlement_id : ℕ) (requester nonce : Text) → Line
  tears_down : (session_id : Text) → Line
  ticks : Line
  revokes : (entitlement_id : ℕ) → Line
  waits : (seconds : ℕ) → Line

-- what a line leaves of the world, whether it returned or raised
unfoldable pub play : Line → MockWorld → MockWorld
play (buys signed buyer) w = (fulfill signed buyer w).1
play (asks id) w = (challenge id w).1
play (activates id requester nonce) w = (activate id requester nonce w).1
play (tears_down sid) w = (teardown sid w).1
play ticks w = (tick w).1
play (revokes id) w = (revoke id w).1
play (waits seconds) w = (advance_time seconds w).1

unfoldable pub perform : List Line → MockWorld → MockWorld
perform [] w = w
perform (line ∷ lines) w = perform lines (play line w)
