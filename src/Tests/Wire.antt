-- ===== src/Tests/Wire.antt =====
-- An instance of the theorem on the codec: the payloads are the values themselves.
use a2a_tokenized_provisioni.Base.{◌≡◌, refl, true, false, none, some, if◌then◌else◌, text_eq}
use a2a_tokenized_provisioni.Exec.{Result, ok, raised, validation_error}
use a2a_tokenized_provisioni.Interfaces.{ServiceNeed, SignedOffer, Decline}
use a2a_tokenized_provisioni.Interfaces.Fixtures.{bandwidth_need_7}
use a2a_tokenized_provisioni.Interfaces.Patterns.{valid_need}
use a2a_tokenized_provisioni.Agents.Provider.{provide}
use a2a_tokenized_provisioni.Agents.Adapter.{
  Codec, Documented, kind_of, valid_signed, loopback_quote,
}
use a2a_tokenized_provisioni.Agents.Adapter.Loopback.{across, loopback_quote-eq}
use a2a_tokenized_provisioni.Tests.Sales.{signer, readings, port}

data Message : Type 0 where
  need_message : ServiceNeed → Message
  signed_message : SignedOffer → Message
  decline_message : Decline → Message

abbrev as_need : Message → Result ServiceNeed
as_need (need_message need) = if valid_need need then ok need else raised validation_error
as_need (signed_message signed) = raised validation_error
as_need (decline_message decline) = raised validation_error

abbrev as_signed : Message → Result SignedOffer
as_signed (need_message need) = raised validation_error
as_signed (signed_message signed) =
    if valid_signed signed then ok signed else raised validation_error
as_signed (decline_message decline) = raised validation_error

abbrev as_decline : Message → Result Decline
as_decline (need_message need) = raised validation_error
as_decline (signed_message signed) = raised validation_error
as_decline (decline_message decline) = ok decline

abbrev plain : Codec Message Message
plain = record {
  dump_need = λ need. need_message need;
  dump_signed_offer = λ signed. signed_message signed;
  dump_decline = λ decline. decline_message decline;
  loads = λ payload. ok payload;
  kind = λ message. elim message [
    | need_message need ↦ ok (some (kind_of need))
    | signed_message signed ↦ ok none
    | decline_message decline ↦ ok none
  ];
  declined = λ message. elim message [
    | need_message need ↦ ok false
    | signed_message signed ↦ ok false
    | decline_message decline ↦ ok true
  ];
  validate_bandwidth_need = as_need;
  validate_telemetry_need = as_need;
  validate_signed_offer = as_signed;
  validate_decline = as_decline;
}

plain-Documented : Documented plain
plain-Documented = record {
  need_data = λ need. need_message need;
  signed_data = λ signed. signed_message signed;
  decline_data = λ decline. decline_message decline;
  need_loads = λ need. refl;
  need_kind = λ need. refl;
  bandwidth_validates = λ need h. refl;
  telemetry_validates = λ need h. refl;
  signed_loads = λ signed. refl;
  signed_not_declined = λ signed. refl;
  signed_validates = λ signed. refl;
  decline_loads = λ decline. refl;
  decline_declined = λ decline. refl;
  decline_validates = λ decline. refl;
}

loopback_quote-eq_example :
    loopback_quote plain none signer readings bandwidth_need_7 port
    ≡ across bandwidth_need_7 (provide none signer readings bandwidth_need_7) port
loopback_quote-eq_example =
    loopback_quote-eq plain plain-Documented none signer readings bandwidth_need_7 port
