-- ===== src/Tests/Sales.antt =====
-- Instances of the theorems on the ledger, the provider and the consumer.
use a2a_tokenized_provisioni.Base.{
  ℕ, ◌+◌, ◌-◌, ◌==◌, leb, if◌then◌else◌, ◌≡◌, inl, refl, true, Option, none, some, [], arith,
}
use a2a_tokenized_provisioni.Base.Decimal.{codes}
use a2a_tokenized_provisioni.Exec.{ok, pure}
use a2a_tokenized_provisioni.Dict
use a2a_tokenized_provisioni.Interfaces.Fixtures.{bandwidth_need_7, canonical_signed_offer}
use a2a_tokenized_provisioni.Agents.Catalogue.{AbiEncode}
use a2a_tokenized_provisioni.Agents.Ledger.{
  Window, window_eq, CapacityLedger, holds_of, swept, sum_units, try_reserve, hold_until, release,
  first_reading, available, reserved, keep_live, restamp, restamped, give_back,
}
use a2a_tokenized_provisioni.Agents.Ledger.Admission.{
  Fits, Run, here, next, by_reserve, by_hold_until, by_release, Run-Fits,
}
use a2a_tokenized_provisioni.Agents.Provider.{SignOffer, Readings, key_of, provide}
use a2a_tokenized_provisioni.Agents.Provider.Outcomes
use a2a_tokenized_provisioni.Agents.Provider.Outcomes.{provide_lem, provide-Fits}
use a2a_tokenized_provisioni.Agents.Consumer.{ConsumerTools, asked, consume}
use a2a_tokenized_provisioni.Agents.Consumer.Outcomes as Purchase
use a2a_tokenized_provisioni.Agents.Consumer.Outcomes.{consume_lem, policy-accept_iff}

abbrev slot : Window
slot = (1757944800, 1757952000)

abbrev pool : CapacityLedger
pool = record { capacity = 100; holds = [] }

pool-Fits : Fits pool
unfolding holds_of Dict.get sum_units
pool-Fits w = omega arith

-- One sale of 60 is signed until 1200, and one of 40 is declined.
abbrev sold : CapacityLedger
sold = hold_until (some 0) slot 60 1200 (try_reserve (some (0, 0)) slot 60 pool).1

abbrev declined : CapacityLedger
declined = release (some 0) slot 40 (try_reserve (some (0, 0)) slot 40 sold).1

sales : Run pool declined
sales =
    next
      (next
        (next (next here (by_reserve (some (0, 0)) slot 60)) (by_hold_until (some 0) slot 60 1200))
        (by_reserve (some (0, 0)) slot 40))
      (by_release (some 0) slot 40)

-- Then 80 are admitted at 300, beside the 60 of the signed offer, out of 100.
oversold : (try_reserve (some (300, 300)) slot 80 declined).0 ≡ true
unfolding try_reserve hold_until release available reserved holds_of keep_live restamp restamped
    give_back swept sum_units Dict.get Dict.put
oversold = refl

Run-Fits_example :
    Fits declined
    × (declined.capacity ≡ 100)
    × ((clock : Option (ℕ × ℕ)) (window : Window) (units : ℕ)
        → (try_reserve clock window units declined).0
          ≡ leb (sum_units (swept (first_reading clock) (holds_of declined window)) + units) 100)
    × ((clock : Option ℕ) (window : Window) (units : ℕ) (w : Window)
        → sum_units (holds_of (release clock window units declined) w) ≡ (
            if window == w
            then sum_units (swept clock (holds_of declined window)) - units
            else sum_units (holds_of declined w)))
Run-Fits_example = Run-Fits sales pool-Fits

-- a provider with no model, whose tool signs the canonical offer
abbrev pub signer : SignOffer
signer = λ need price_tok. ok canonical_signed_offer

abbrev pub readings : Option Readings
readings = some (record { swept_at = 1757944000; stamped_at = 1757944000; quoted_at = 1757944010 })

abbrev pub port : CapacityLedger
port = record { capacity = 1000000000; holds = [] }

pub port-Fits : Fits port
unfolding holds_of Dict.get sum_units
port-Fits w = omega arith

provide_lem_example :
    let (r, l') = provide none signer readings bandwidth_need_7 port in
    Outcomes.Outcome none signer readings bandwidth_need_7 port r
      (holds_of l' (key_of bandwidth_need_7))
provide_lem_example = provide_lem none signer readings bandwidth_need_7 (omega arith) port

-- an encoder that is not asked for a bandwidth need
abbrev no_abi : AbiEncode
no_abi = λ sensor_paths collector_endpoint sample_interval_s. []

-- the world counts the settlements
abbrev tools : ConsumerTools ℕ
tools = record {
  quote = λ need. pure (inl canonical_signed_offer);
  settle = λ signed n. (ok 7, n + 1);
  activate = λ id kind. pure (codes "ent7-a0");
}

consume_lem_example :
    let (r, n) = consume none tools (asked bandwidth_need_7 10) 0 in
    Purchase.Outcome none tools bandwidth_need_7 10 0 r n
consume_lem_example = consume_lem none tools bandwidth_need_7 10 0
