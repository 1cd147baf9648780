-- ===== src/Skeleton/Chain.antt =====
-- e2e/src/e2e/skeleton/fakes.py: `FakeClock` and `FakeChain`, the settlement as dictionaries.
-- The callbacks of `watch_revoked` are run by the world's `revoke`, not here. Balances are never
-- negative, since a buyer pays only what it has. A signed offer is validated, so its addresses
-- and its params are hexadecimal texts after "0x".
pub mod Money
pub mod Rules
pub mod History
pub mod Uses
use a2a_tokenized_provisioni.Base.{
  ℕ, ◌+◌, ◌-◌, ◌*◌, ◌^◌, ◌≡◌, Bool, true, false, not, Option, none, some, List, [], ◌∷◌, ◌==◌, ◌&&◌,
  elem, ltb, if◌then◌else◌, text_eq, nat_eq, take, drop,
}
use a2a_tokenized_provisioni.Base.Decimal.{Text}
use a2a_tokenized_provisioni.Base.Hex.{hex_from, hex_digit}
use a2a_tokenized_provisioni.Exec.{
  and_then, Exception, Exec, Result, ok, raised, not_implemented, offer_expired, wrong_consumer,
  offer_already_used, insufficient_funds, key_error, value_error, validation_error, pure, raise,
  lift, modify, ◌>>=◌, ◌>>◌,
}
use a2a_tokenized_provisioni.Dict
use a2a_tokenized_provisioni.Dict.{Dict}
use a2a_tokenized_provisioni.Interfaces.{
  Bytes, Params, bandwidth_params, Offer, SignedOffer, EntitlementView,
}

pub record FakeChain : Type 0 where
  pub now : ℕ
  pub balances : Dict Text ℕ
  pub next_id : ℕ
  pub consumed : List Text
  pub owners : Dict ℕ Text
  pub entitlements : Dict ℕ EntitlementView

-- `balances.get(address, 0)`
unfoldable pub balance : Dict Text ℕ → Text → ℕ
balance d address = elim (Dict.get d address) [ none ↦ 0 | some n ↦ n ]

-- `int(text, 16)`, which raises on no digits at all
unfoldable pub int_16 : Text → Result ℕ
int_16 [] = raised value_error
int_16 (c ∷ s) = ok (hex_from 0 (c ∷ s))

-- `BandwidthParams(...)`: a `Uint64` and a `Uint8`
unfoldable pub valid_bandwidth : ℕ → ℕ → Result Params
valid_bandwidth capacity_bps qos_class =
    if ltb capacity_bps (2 ^ 64) && ltb qos_class (2 ^ 8)
    then ok (bandwidth_params capacity_bps qos_class)
    else raised validation_error

-- `_decode_bandwidth_params`: two words of 64 digits after "0x"
unfoldable pub decode_bandwidth_params : Text → Result Params
unfolding int_16 valid_bandwidth
decode_bandwidth_params params =
    let body = drop 2 params in
    and_then (int_16 (take 64 body)) λ capacity_bps.
      and_then (int_16 (take 64 (drop 64 body))) λ qos_class. valid_bandwidth capacity_bps qos_class

-- `bytes.fromhex` of digits
unfoldable pub from_hex : Text → Bytes
unfolding hex_digit
from_hex [] = []
from_hex (c ∷ []) = []
from_hex (c ∷ e ∷ s) = (hex_digit c * 16 + hex_digit e) ∷ from_hex s

-- `int(consumer, 16) != 0 and consumer != buyer`
unfoldable pub bound_elsewhere : (consumer buyer : Text) → Bool
bound_elsewhere consumer buyer = not (hex_from 0 (drop 2 consumer) == 0) && not (consumer == buyer)

-- the checks of `fulfill`, in their order
unfoldable pub refusal : SignedOffer → (buyer : Text) → FakeChain → Option Exception
unfolding balance
refusal signed buyer c =
    let offer = signed.offer in
    if not (offer.service_type == 0)
    then some not_implemented
    else if ltb offer.valid_until c.now
    then some offer_expired
    else if bound_elsewhere offer.consumer buyer
    then some wrong_consumer
    else if elem offer.salt c.consumed
    then some offer_already_used
    else if ltb (balance c.balances buyer) offer.price
    then some insufficient_funds
    else none

-- the two writes to the balances; the second reads what the first wrote
unfoldable pub pay : (buyer provider : Text) (price : ℕ) → Dict Text ℕ → Dict Text ℕ
unfolding balance
pay buyer provider price d =
    let d' = Dict.put d buyer (balance d buyer - price) in
    Dict.put d' provider (balance d' provider + price)

-- the view that a purchase writes
abbrev pub minted : Offer → (id : ℕ) → Params → EntitlementView
minted offer id params = record {
  id = id;
  issuer = offer.provider;
  service_type = offer.service_type;
  resource_id = from_hex (drop 2 offer.resource_id);
  params = params;
  start_time = offer.start_time;
  end_time = offer.end_time;
  revoked = false;
  terms_hash = from_hex (drop 2 offer.terms_hash);
}

-- the writes of `fulfill` up to the view, which is built before it is stored
abbrev pub settle : Offer → (buyer : Text) → FakeChain → FakeChain
settle offer buyer c = record c {
  consumed = offer.salt ∷ c.consumed;
  balances = pay buyer offer.provider offer.price c.balances;
  next_id = c.next_id + 1;
  owners = Dict.put c.owners c.next_id buyer;
}

abbrev pub refuse : Option Exception → Exec FakeChain (Unit {0})
refuse none = pure tt
refuse (some x) = raise x

abbrev pub current_id : Exec FakeChain ℕ
current_id c = (ok c.next_id, c)

unfoldable pub fulfill : SignedOffer → (buyer : Text) → Exec FakeChain ℕ
unfolding refusal
fulfill signed buyer = do
  λ c. refuse (refusal signed buyer c) c
  id ← current_id
  modify (settle signed.offer buyer)
  params ← lift (decode_bandwidth_params signed.offer.params)
  modify
      (λ c. record c { entitlements = Dict.put c.entitlements id (minted signed.offer id params) })
  pure id

-- `self._entitlements[id]`, which raises `KeyError`
unfoldable pub found {ℓ} : {A : Type ℓ} → Option A → Result A
found none = raised key_error
found (some a) = ok a

unfoldable pub get_entitlement : FakeChain → ℕ → Result EntitlementView
unfolding found
get_entitlement c id = found (Dict.get c.entitlements id)

unfoldable pub owner_of : FakeChain → ℕ → Result Text
unfolding found
owner_of c id = found (Dict.get c.owners id)

-- `revoke` without its callbacks
unfoldable pub revoke : (entitlement_id : ℕ) → Exec FakeChain (Unit {0})
revoke id = do
  view ← (λ c. (get_entitlement c id, c))
  modify
      (λ c. record c { entitlements = Dict.put c.entitlements id (record view { revoked = true }) })

-- `FakeClock.advance`
unfoldable pub advance : ℕ → Exec FakeChain (Unit {0})
advance seconds = modify (λ c. record c { now = c.now + seconds })
