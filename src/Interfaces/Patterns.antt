-- ===== src/Interfaces/Patterns.antt =====
-- interfaces/src/a2a_interfaces/models.py: the constrained scalar types, each as the test that its
-- declaration states, with the patterns as tests on characters.
pub mod Hex
use a2a_tokenized_provisioni.Base.{
  ℕ, zero, suc, ◌^◌, Bool, true, false, ◌&&◌, ◌||◌, [], ◌∷◌, ◌==◌, leb, ltb, nat_eq, text_eq,
}
use a2a_tokenized_provisioni.Base.Decimal.{Text, codes}
use a2a_tokenized_provisioni.Interfaces.{
  Offer, TimeWindow, ServiceNeed, bandwidth_need, telemetry_need,
}

-- `Uint8`, `Uint32` and `Uint64`
abbrev pub uint : (bits : ℕ) → ℕ → Bool
uint bits n = ltb n (2 ^ bits)

-- `[0-9a-fA-F]`
abbrev pub is_hex : ℕ → Bool
is_hex c = (leb 48 c && leb c 57) || ((leb 97 c && leb c 102) || (leb 65 c && leb c 70))

-- `[0-9a-fA-F]{n}$`
unfoldable pub hex_digits : (n : ℕ) → Text → Bool
hex_digits zero [] = true
hex_digits zero (c ∷ s) = false
hex_digits (suc n) [] = false
hex_digits (suc n) (c ∷ s) = is_hex c && hex_digits n s

-- `([0-9a-fA-F]{2})*$`
unfoldable pub hex_pairs : Text → Bool
hex_pairs [] = true
hex_pairs (c ∷ []) = false
hex_pairs (c ∷ d ∷ s) = is_hex c && (is_hex d && hex_pairs s)

-- `^0x`, and the rest of the pattern
abbrev pub after_0x : (Text → Bool) → Text → Bool
after_0x rest [] = false
after_0x rest (c ∷ []) = false
after_0x rest (c ∷ d ∷ s) = c == b'0' && (d == b'x' && rest s)

-- `Address`
unfoldable pub is_address : Text → Bool
unfolding hex_digits
is_address text = after_0x (hex_digits 40) text

-- `Bytes32Hex`
unfoldable pub is_bytes32 : Text → Bool
unfolding hex_digits
is_bytes32 text = after_0x (hex_digits 64) text

-- `Signature`
unfoldable pub is_signature : Text → Bool
unfolding hex_digits
is_signature text = after_0x (hex_digits 130) text

-- `HexData`
unfoldable pub is_hex_data : Text → Bool
unfolding hex_pairs
is_hex_data text = after_0x hex_pairs text

-- the fields of `Offer`; its price is a number here, which a decimal text writes
unfoldable pub valid_offer : Offer → Bool
unfolding is_address is_bytes32 is_hex_data
valid_offer o =
    is_address o.provider
    && (is_address o.consumer
        && (uint 8 o.service_type
            && (is_bytes32 o.resource_id
                && (is_hex_data o.params
                    && (uint 64 o.start_time
                        && (uint 64 o.end_time
                            && (is_address o.payment_token
                                && (uint 64 o.valid_until
                                    && (is_bytes32 o.salt && is_bytes32 o.terms_hash)))))))))

-- `ActionPayload.kind`
unfoldable pub is_kind : Text → Bool
is_kind kind = kind == codes "bandwidth" || kind == codes "telemetry"

-- `TimeWindow`, `BandwidthNeed` and `TelemetryNeed`
unfoldable pub valid_window : TimeWindow → Bool
valid_window window = uint 64 window.start && uint 64 window.end

unfoldable pub valid_need : ServiceNeed → Bool
unfolding valid_window
valid_need (bandwidth_need src dst capacity_bps qos_class window) =
    uint 64 capacity_bps && (uint 8 qos_class && valid_window window)
valid_need (telemetry_need target sensor_paths collector_endpoint sample_interval_s window) =
    uint 32 sample_interval_s && valid_window window
