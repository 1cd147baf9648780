-- ===== src/Agents/Catalogue/Params.antt =====
-- catalogue.py and e2e/src/e2e/skeleton/fakes.py: the params that the provider writes and the chain
-- reads.
use a2a_tokenized_provisioni.Base.{
  ℕ, suc, ◌^◌, ◌<◌, ◌≡◌, refl, ap, ◌∙◌, subst, [], ◌∷◌, ◌++◌, arith, length, take, drop,
  take-append, drop-append, take-length,
}
use a2a_tokenized_provisioni.Base.Decimal.{Text}
use a2a_tokenized_provisioni.Base.Hex.{hex_word, hex_from, room, length-hex_word, hex_from-hex_word}
use a2a_tokenized_provisioni.Exec.{ok}
use a2a_tokenized_provisioni.Interfaces.{bandwidth_params, bandwidth_need, TimeWindow}
use a2a_tokenized_provisioni.Skeleton.Chain.{int_16, valid_bandwidth, decode_bandwidth_params}
use a2a_tokenized_provisioni.Agents.Catalogue.{AbiEncode, encode_params}

int_16-eq : (k : ℕ) (s : Text) → length s ≡ suc k → int_16 s ≡ ok (hex_from 0 s)
unfolding int_16
int_16-eq k [] h = absurd (omega (arith, h))
int_16-eq k (c ∷ s) h = refl

int_16-hex_word : (n : ℕ) → n < room 64 → int_16 (hex_word 64 n) ≡ ok n
int_16-hex_word n h =
    int_16-eq 63 (hex_word 64 n) (length-hex_word 64 n) ∙ ap (λ m. ok m) (hex_from-hex_word 64 n h)

-- The params of a bandwidth offer come back from the chain's decoder, for every capacity of 64
-- bits and every class of 8.
pub decode_bandwidth_params-encode_params :
    (abi : AbiEncode) (src dst : Text) (capacity_bps qos_class : ℕ) (window : TimeWindow)
    → capacity_bps < 2 ^ 64
    → qos_class < 2 ^ 8
    → decode_bandwidth_params
        (encode_params abi (bandwidth_need src dst capacity_bps qos_class window))
      ≡ ok (bandwidth_params capacity_bps qos_class)
unfolding decode_bandwidth_params encode_params
decode_bandwidth_params-encode_params abi src dst capacity_bps qos_class window hc hq =
    let a = hex_word 64 capacity_bps in
    let b = hex_word 64 qos_class in
    let first : take 64 (a ++ b) ≡ a =
      subst (λ k. take k (a ++ b) ≡ a) (length-hex_word 64 capacity_bps) (take-append a b) in
    let back : drop 64 (a ++ b) ≡ b =
      subst (λ k. drop k (a ++ b) ≡ b) (length-hex_word 64 capacity_bps) (drop-append a b) in
    let second : take 64 b ≡ b =
      subst (λ k. take k b ≡ b) (length-hex_word 64 qos_class) (take-length b) in
    rw
      (
        first,
        back,
        second,
        int_16-hex_word capacity_bps (omega (arith, hc)),
        int_16-hex_word qos_class (omega (arith, hq)),
        valid_bandwidth,
      )
      (ground (arith, hc, hq))
