-- ===== src/Agents/Adapter.antt =====
-- agents/src/agents/a2a_adapter.py: the codec of what two agents send each other, and the quote
-- across it. json and pydantic are parameters, with the type `P` of the payloads and the type `J` of
-- what is read of them. The agent cards and the timings are left out.
pub mod Loopback
use a2a_tokenized_provisioni.Base.{
  ◌≡◌, ◌⊎◌, inl, inr, Bool, true, false, Option, none, some, ◌==◌, ◌&&◌, if◌then◌else◌, text_eq,
}
use a2a_tokenized_provisioni.Base.Decimal.{Text, codes}
use a2a_tokenized_provisioni.Exec.{
  Exec, Result, ok, raised, validation_error, and_then, lift, ◌>>=◌,
}
use a2a_tokenized_provisioni.Interfaces.{
  ServiceNeed, bandwidth_need, telemetry_need, SignedOffer, Decline,
}
use a2a_tokenized_provisioni.Interfaces.Patterns.{valid_need, valid_offer, is_signature}
use a2a_tokenized_provisioni.Agents.Ledger.{CapacityLedger}
use a2a_tokenized_provisioni.Agents.Provider.{QuoteModel, SignOffer, Readings, provide}

-- `kind` is `data.get("kind")`, of which a value that is no text counts as none; `declined` is the
-- truth of `data.get("declined")`. Each raises where the data is no object.
pub record Codec (P J : Type 0) : Type 0 where
  pub dump_need : ServiceNeed → P
  pub dump_signed_offer : SignedOffer → P
  pub dump_decline : Decline → P
  pub loads : P → Result J
  pub kind : J → Result (Option Text)
  pub declined : J → Result Bool
  pub validate_bandwidth_need : J → Result ServiceNeed
  pub validate_telemetry_need : J → Result ServiceNeed
  pub validate_signed_offer : J → Result SignedOffer
  pub validate_decline : J → Result Decline

abbrev pub is_bandwidth : Option Text → Bool
is_bandwidth none = false
is_bandwidth (some kind) = kind == codes "bandwidth"

module _ {P J : Type 0} (codec : Codec P J) where
  unfoldable pub encode_need : ServiceNeed → P
  encode_need need = codec.dump_need need

  unfoldable pub decode_need : P → Result ServiceNeed
  decode_need payload = and_then (codec.loads payload) λ data_. and_then (codec.kind data_) λ kind.
      if is_bandwidth kind
      then codec.validate_bandwidth_need data_
      else codec.validate_telemetry_need data_

  unfoldable pub encode_offer_or_decline : SignedOffer ⊎ Decline → P
  encode_offer_or_decline (inl signed) = codec.dump_signed_offer signed
  encode_offer_or_decline (inr decline) = codec.dump_decline decline

  unfoldable pub decode_offer_or_decline : P → Result (SignedOffer ⊎ Decline)
  decode_offer_or_decline payload = and_then (codec.loads payload) λ data_.
      and_then (codec.declined data_) λ declined.
        if declined
        then and_then (codec.validate_decline data_) (λ d. ok (inr d))
        else and_then (codec.validate_signed_offer data_) (λ s. ok (inl s))

  -- the need, the provider's graph and the answer, across the codec
  unfoldable pub loopback_quote :
      (llm : Option QuoteModel) (sign_offer : SignOffer) (clock : Option Readings)
      (need : ServiceNeed)
      → Exec CapacityLedger (SignedOffer ⊎ Decline)
  unfolding encode_need decode_need encode_offer_or_decline decode_offer_or_decline
  loopback_quote llm sign_offer clock need = do
    received ← lift (decode_need (encode_need need))
    result ← provide llm sign_offer clock received
    lift (decode_offer_or_decline (encode_offer_or_decline result))

abbrev pub kind_of : ServiceNeed → Text
kind_of (bandwidth_need src dst capacity_bps qos_class window) = codes "bandwidth"
kind_of (telemetry_need target sensor_paths collector_endpoint sample_interval_s window) =
    codes "telemetry"

-- `SignedOffer`, by the shapes of its fields
unfoldable pub valid_signed : SignedOffer → Bool
valid_signed s = valid_offer s.offer && is_signature s.signature

-- What json and pydantic document: what a model dumps is read back as an object with the model's
-- keys. The model's own class validates it to the same value if its fields keep to their
-- constraints, and raises ValidationError otherwise. An offer has no key "declined".
pub record Documented {P J : Type 0} (codec : Codec P J) : Type 0 where
  pub need_data : ServiceNeed → J
  pub signed_data : SignedOffer → J
  pub decline_data : Decline → J
  pub need_loads : (need : ServiceNeed) → codec.loads (codec.dump_need need) ≡ ok (need_data need)
  pub need_kind : (need : ServiceNeed) → codec.kind (need_data need) ≡ ok (some (kind_of need))
  pub bandwidth_validates :
      (need : ServiceNeed)
      → kind_of need ≡ codes "bandwidth"
      → codec.validate_bandwidth_need (need_data need)
        ≡ (if valid_need need then ok need else raised validation_error)
  pub telemetry_validates :
      (need : ServiceNeed)
      → kind_of need ≡ codes "telemetry"
      → codec.validate_telemetry_need (need_data need)
        ≡ (if valid_need need then ok need else raised validation_error)
  pub signed_loads :
      (signed : SignedOffer)
      → codec.loads (codec.dump_signed_offer signed) ≡ ok (signed_data signed)
  pub signed_not_declined : (signed : SignedOffer) → codec.declined (signed_data signed) ≡ ok false
  pub signed_validates :
      (signed : SignedOffer)
      → codec.validate_signed_offer (signed_data signed)
        ≡ (if valid_signed signed then ok signed else raised validation_error)
  pub decline_loads :
      (decline : Decline) → codec.loads (codec.dump_decline decline) ≡ ok (decline_data decline)
  pub decline_declined : (decline : Decline) → codec.declined (decline_data decline) ≡ ok true
  pub decline_validates :
      (decline : Decline) → codec.validate_decline (decline_data decline) ≡ ok decline
