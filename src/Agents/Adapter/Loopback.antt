-- ===== src/Agents/Adapter/Loopback.antt =====
-- a2a_adapter.py: a quote across the codec against the provider's quote.
use a2a_tokenized_provisioni.Base.{
  ◌≡◌, refl, ◌⊎◌, inl, inr, Option, text_eq, text_beq, Bool-cases, if◌then◌else◌,
}
use a2a_tokenized_provisioni.Exec.{
  Exec, Result, Result-cases, ok, raised, validation_error, and_then,
}
use a2a_tokenized_provisioni.Interfaces.{
  ServiceNeed, bandwidth_need, telemetry_need, SignedOffer, Decline,
}
use a2a_tokenized_provisioni.Interfaces.Patterns.{valid_need}
use a2a_tokenized_provisioni.Agents.Ledger.{CapacityLedger}
use a2a_tokenized_provisioni.Agents.Provider.{QuoteModel, SignOffer, Readings, provide}
use a2a_tokenized_provisioni.Agents.Adapter.{
  Codec, Documented, valid_signed, encode_need, decode_need, encode_offer_or_decline,
  decode_offer_or_decline, loopback_quote,
}

-- What comes back of a need, a result and a run, where the values out of their shapes are refused.
abbrev pub received : (need : ServiceNeed) → Result ServiceNeed
received need = if valid_need need then ok need else raised validation_error

abbrev pub returned : SignedOffer ⊎ Decline → Result (SignedOffer ⊎ Decline)
returned (inl signed) = if valid_signed signed then ok (inl signed) else raised validation_error
returned (inr decline) = ok (inr decline)

abbrev pub across :
    ServiceNeed
    → Exec CapacityLedger (SignedOffer ⊎ Decline)
    → Exec CapacityLedger (SignedOffer ⊎ Decline)
across need graph ledger =
    let (r, ledger') = graph ledger in
    if valid_need need then (and_then r returned, ledger') else (raised validation_error, ledger)

module _ {P J : Type 0} (codec : Codec P J) (wire : Documented codec) where
  decode_need-encode_need :
      (need : ServiceNeed) → decode_need codec (encode_need codec need) ≡ received need
  unfolding decode_need encode_need text_beq
  decode_need-encode_need (bandwidth_need src dst capacity_bps qos_class window) =
      let need = bandwidth_need src dst capacity_bps qos_class window in
      rw (wire.need_loads need, wire.need_kind need) (wire.bandwidth_validates need refl)
  decode_need-encode_need
        (telemetry_need target sensor_paths collector_endpoint sample_interval_s window) =
      let need = telemetry_need target sensor_paths collector_endpoint sample_interval_s window in
      rw (wire.need_loads need, wire.need_kind need) (wire.telemetry_validates need refl)

  decode-encode :
      (result : SignedOffer ⊎ Decline)
      → decode_offer_or_decline codec (encode_offer_or_decline codec result) ≡ returned result
  unfolding decode_offer_or_decline encode_offer_or_decline
  decode-encode (inl signed) = elim (Bool-cases (valid_signed signed)) [
    | inl good ↦
        rw
          (
            wire.signed_loads signed,
            wire.signed_not_declined signed,
            wire.signed_validates signed,
            good,
          )
          refl
    | inr bad ↦
        rw
          (
            wire.signed_loads signed,
            wire.signed_not_declined signed,
            wire.signed_validates signed,
            bad,
          )
          refl
  ]
  decode-encode (inr decline) =
      rw (wire.decline_loads decline, wire.decline_declined decline, wire.decline_validates decline)
        refl

  -- A quote across the codec answers, raises and leaves the ledger as the provider's graph does on
  -- the need itself, whatever the model and the signing tool do, with two exceptions: a need whose
  -- fields break their constraints raises ValidationError before the graph runs, and so does, after
  -- the run, a signed offer whose fields do.
  pub loopback_quote-eq :
      (llm : Option QuoteModel) (sign_offer : SignOffer) (clock : Option Readings)
      (need : ServiceNeed) (ledger : CapacityLedger)
      → loopback_quote codec llm sign_offer clock need ledger
        ≡ across need (provide llm sign_offer clock need) ledger
  unfolding loopback_quote
  loopback_quote-eq llm sign_offer clock need ledger = elim (Bool-cases (valid_need need)) [
    | inr bad ↦ rw (decode_need-encode_need need, bad) refl
    | inl good ↦ elim (Result-cases (provide llm sign_offer clock need ledger).0) [
      | inl (result, e) ↦ rw (decode_need-encode_need need, good, e, decode-encode result) refl
      | inr (x, e) ↦ rw (decode_need-encode_need need, good, e) refl
    ]
  ]
