-- ===== src/Agents/Tools/Selling/Bounds.antt =====
-- mcp_tools.py: the offer that the provider's tool builds keeps to the shape of an offer.
use a2a_tokenized_provisioni.Base.{
  ℕ, ◌≡◌, refl, true, List, ◌++◌, arith, sym, ◌<◌, ◌^◌, ◌*◌, Bool, ◌&&◌, ltb, ◌↔◌, Bool-cases, inl,
  inr,
}
use a2a_tokenized_provisioni.Base.Int.{ℤ, pos, negsuc}
use a2a_tokenized_provisioni.Base.Decimal.{Text, codes}
use a2a_tokenized_provisioni.Base.Hex.{hex_word}
use a2a_tokenized_provisioni.Exec.{Exception, ok, raised, raised-ne-ok, validation_error}
use a2a_tokenized_provisioni.Interfaces.{
  ServiceNeed, Offer, SignedOffer, bandwidth_need, telemetry_need,
}
use a2a_tokenized_provisioni.Interfaces.Patterns.{
  is_address, is_bytes32, hex_digits, is_hex_data, is_signature, valid_offer, hex_pairs,
}
use a2a_tokenized_provisioni.Interfaces.Patterns.Hex.{hex_pairs-append, word-pairs}
use a2a_tokenized_provisioni.Agents.Catalogue.{AbiEncode, service_for, window_of, encode_params}
use a2a_tokenized_provisioni.Agents.Tools.Selling.{offer_for, signed_by, sign_offer}
use a2a_tokenized_provisioni.Interfaces.Fixtures.{zero_address, mock_tok, terms_hash}

module _ (abi : AbiEncode) (provider : Text) (sign : Offer → Text) (token : Text)
    (need : ServiceNeed) where
  -- the offer of a need at a price in whole tokens
  abbrev pub offered : (price_tok : ℕ) → Offer
  offered n = record {
    provider = provider;
    consumer = zero_address;
    service_type = (service_for need).service_type;
    resource_id = (service_for need).resource_id;
    params = encode_params abi need;
    start_time = (window_of need).start;
    end_time = (window_of need).end;
    payment_token = mock_tok;
    price = n * 10 ^ 18;
    valid_until = (window_of need).end;
    salt = codes "0x" ++ token;
    terms_hash = terms_hash;
  }

  -- What it takes that the tool returns `s`: a price that is not negative, and fields that keep to
  -- their widths and patterns.
  pub record Signed (price_tok : ℤ) (s : SignedOffer) : Type 0 where
    pub tokens : ℕ
    pub not_negative : price_tok ≡ pos tokens
    pub provider_fits : is_address provider ≡ true
    pub params_fit : is_hex_data (encode_params abi need) ≡ true
    pub start_fits : (window_of need).start < 2 ^ 64
    pub end_fits : (window_of need).end < 2 ^ 64
    pub salt_fits : is_bytes32 (codes "0x" ++ token) ≡ true
    pub signature_fits : is_signature (codes "0x" ++ sign (offered tokens)) ≡ true
    pub signed :
        s ≡ record { offer = offered tokens; signature = codes "0x" ++ sign (offered tokens) }

module _ (abi : AbiEncode) (provider : Text) (sign : Offer → Text) (token : Text) where
  -- The offer's shape, by the fields that are not constants.
  abbrev shape : ServiceNeed → Bool
  shape need =
      is_address provider
      && (is_hex_data (encode_params abi need)
          && (ltb (window_of need).start (2 ^ 64)
              && (ltb (window_of need).end (2 ^ 64) && is_bytes32 (codes "0x" ++ token))))

  valid_offer-shape :
      (need : ServiceNeed) (n : ℕ)
      → valid_offer (offer_for abi provider sign token need n) ≡ shape need
  unfolding offer_for valid_offer service_for
  valid_offer-shape (bandwidth_need src dst capacity_bps qos_class window) n =
      unfold is_hex_data is_address is_bytes32 hex_digits in ground arith
  valid_offer-shape (telemetry_need target sensor_paths collector_endpoint sample_interval_s window)
        n =
      unfold is_hex_data is_address is_bytes32 hex_digits in ground arith

  -- the same, as facts
  shape-fits :
      (need : ServiceNeed)
      → shape need ≡ true
      → (is_address provider ≡ true)
        × (is_hex_data (encode_params abi need) ≡ true)
        × ((window_of need).start < 2 ^ 64)
        × ((window_of need).end < 2 ^ 64)
        × (is_bytes32 (codes "0x" ++ token) ≡ true)
  shape-fits need h = ground (arith, h)

  fits-shape :
      (need : ServiceNeed)
      → is_address provider ≡ true
      → is_hex_data (encode_params abi need) ≡ true
      → (window_of need).start < 2 ^ 64
      → (window_of need).end < 2 ^ 64
      → is_bytes32 (codes "0x" ++ token) ≡ true
      → shape need ≡ true
  fits-shape need a b c d e = ground (arith, a, b, c, d, e)

  -- a tool's answer at a price that is not negative
  Signed-signed_by :
      (need : ServiceNeed) (n : ℕ) (s : SignedOffer)
      → shape need ≡ true
      → signed_by abi provider sign token (offered abi provider sign token need n) ≡ ok s
      → Signed abi provider sign token need (pos n) s
  unfolding signed_by
  Signed-signed_by need n s fits h =
      let offer = offered abi provider sign token need n in
      let (a, b, c, d, e) = shape-fits need fits in
      elim (Bool-cases (is_signature (codes "0x" ++ sign offer))) [
        | inl good ↦
            let same : ok (record { offer = offer; signature = codes "0x" ++ sign offer }) ≡ ok s =
              rw good at h in
            record {
              tokens = n;
              not_negative = refl;
              provider_fits = a;
              params_fit = b;
              start_fits = c;
              end_fits = d;
              salt_fits = e;
              signature_fits = good;
              signed = cc;
            }
        | inr bad ↦ absurd (raised-ne-ok (rw bad at h))
      ]

  Signed-sign_offer :
      (need : ServiceNeed) (price_tok : ℤ) (s : SignedOffer)
      → sign_offer abi provider sign token need price_tok ≡ ok s
      → Signed abi provider sign token need price_tok s
  unfolding sign_offer offer_for
  Signed-sign_offer need (negsuc n) s h = absurd (raised-ne-ok h)
  Signed-sign_offer need (pos n) s h = elim (Bool-cases (shape need)) [
    | inl good ↦ Signed-signed_by need n s good (rw (valid_offer-shape need n, good) at h)
    | inr bad ↦ absurd (raised-ne-ok (rw (valid_offer-shape need n, bad) at h))
  ]

  sign_offer-Signed :
      (need : ServiceNeed) (price_tok : ℤ) (s : SignedOffer)
      → Signed abi provider sign token need price_tok s
      → sign_offer abi provider sign token need price_tok ≡ ok s
  unfolding sign_offer offer_for signed_by
  sign_offer-Signed need price_tok s f =
      let fits = fits-shape need f.provider_fits f.params_fit f.start_fits f.end_fits f.salt_fits in
      rw (f.not_negative, valid_offer-shape need f.tokens, fits, f.signature_fits, f.signed) refl

  sign_offer-raised :
      (need : ServiceNeed) (price_tok : ℤ) (x : Exception)
      → sign_offer abi provider sign token need price_tok ≡ raised x
      → x ≡ validation_error
  unfolding sign_offer signed_by
  sign_offer-raised need (negsuc n) x h = cc
  sign_offer-raised need (pos n) x h =
      let offer = offer_for abi provider sign token need n in
      elim (Bool-cases (valid_offer offer)) [
        | inr bad ↦ cc (rw bad at h)
        | inl good ↦ elim (Bool-cases (is_signature (codes "0x" ++ sign offer))) [
          | inl fits ↦ absurd (raised-ne-ok (sym (rw (good, fits) at h)))
          | inr bad ↦ cc (rw (good, bad) at h)
        ]
      ]

  pub sign_offer_lem :
      (need : ServiceNeed) (price_tok : ℤ)
      → ((s : SignedOffer)
          → (sign_offer abi provider sign token need price_tok ≡ ok s)
            ↔ Signed abi provider sign token need price_tok s)
        × ((x : Exception)
            → sign_offer abi provider sign token need price_tok ≡ raised x
            → x ≡ validation_error)
  sign_offer_lem need price_tok = (
    λ s. (Signed-sign_offer need price_tok s, sign_offer-Signed need price_tok s),
    λ x. sign_offer-raised need price_tok x,
  )

module _ (abi : AbiEncode)
    (abi_pairs : (paths : List Text) (endpoint : Text) (interval : ℕ)
      → hex_pairs (abi paths endpoint interval) ≡ true) where
  pub encode_params-hex : (need : ServiceNeed) → is_hex_data (encode_params abi need) ≡ true
  unfolding encode_params is_hex_data
  encode_params-hex (bandwidth_need src dst capacity_bps qos_class window) =
      hex_pairs-append (hex_word 64 capacity_bps) (hex_word 64 qos_class) (word-pairs capacity_bps)
        (word-pairs qos_class)
  encode_params-hex
        (telemetry_need target sensor_paths collector_endpoint sample_interval_s window) =
      abi_pairs sensor_paths collector_endpoint sample_interval_s
