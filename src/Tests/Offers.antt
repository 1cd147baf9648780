-- ===== src/Tests/Offers.antt =====
-- Instances of the theorems on the provider's tool: Bell signs an offer for Ada's need.
use a2a_tokenized_provisioni.Base.{
  ◌≡◌, refl, true, some, [], ◌∷◌, ◌++◌, replicate, drop, arith, text_eq, text_beq,
}
use a2a_tokenized_provisioni.Base.Int.{pos}
use a2a_tokenized_provisioni.Base.Decimal.{Text, codes}
use a2a_tokenized_provisioni.Base.Hex.{hex_word, hex_char, hex_from}
use a2a_tokenized_provisioni.Exec.{ok}
use a2a_tokenized_provisioni.Dict
use a2a_tokenized_provisioni.Dict.{Dict}
use a2a_tokenized_provisioni.Interfaces.{Bytes, Resolved, EntitlementView, Offer, SignedOffer}
use a2a_tokenized_provisioni.Interfaces.Fixtures.{ada, bell, bandwidth_need_7, window, resource_id}
use a2a_tokenized_provisioni.Interfaces.Patterns.{
  is_address, is_bytes32, is_signature, valid_need, hex_pairs,
}
use a2a_tokenized_provisioni.Controller.Translators.{apply_bandwidth, translate}
use a2a_tokenized_provisioni.Skeleton.Chain.{
  FakeChain, balance, fulfill, from_hex, get_entitlement, refusal, decode_bandwidth_params,
  bound_elsewhere,
}
use a2a_tokenized_provisioni.Agents.Catalogue.{AbiEncode, encode_params}
use a2a_tokenized_provisioni.Agents.Tools.Selling.{sign_offer, offer_for}
use a2a_tokenized_provisioni.Agents.Tools.Selling.Bounds.{Signed, encode_params-hex, sign_offer_lem}
use a2a_tokenized_provisioni.Agents.Tools.Selling.Asked.{fulfill-asked}

abbrev abi : AbiEncode
abi paths endpoint interval = []

abbrev sign : Offer → Text
sign offer = replicate 130 b'0'

abbrev token : Text
token = replicate 64 b'1'

bell-is_address : is_address bell ≡ true
unfolding is_address
bell-is_address = refl

token-is_bytes32 : is_bytes32 (codes "0x" ++ token) ≡ true
unfolding is_bytes32
token-is_bytes32 = refl

signature-is_signature : is_signature (codes "0x" ++ replicate 130 b'0') ≡ true
unfolding is_signature
signature-is_signature = refl

need-valid : valid_need bandwidth_need_7 ≡ true
unfolding valid_need
need-valid = refl

no_pairs : hex_pairs [] ≡ true
unfolding hex_pairs
no_pairs = refl

abbrev signed : SignedOffer
signed = record {
  offer = offer_for abi bell sign token bandwidth_need_7 10;
  signature = codes "0x" ++ replicate 130 b'0';
}

-- a chain where Ada has twenty tokens
abbrev funded : FakeChain
funded = record {
  now = 1757943120;
  balances = (ada, 20000000000000000000) ∷ [];
  next_id = 7;
  consumed = [];
  owners = [];
  entitlements = [];
}

buys : (fulfill signed ada funded).0 ≡ ok 7
unfolding fulfill refusal decode_bandwidth_params offer_for encode_params hex_word hex_char
    bound_elsewhere text_beq balance hex_from Dict.get
buys = refl

signed-Signed : Signed abi bell sign token bandwidth_need_7 (pos 10) signed
unfolding offer_for
signed-Signed = record {
  tokens = 10;
  not_negative = refl;
  provider_fits = bell-is_address;
  params_fit = encode_params-hex abi (λ paths endpoint interval. no_pairs) bandwidth_need_7;
  start_fits = omega arith;
  end_fits = omega arith;
  salt_fits = token-is_bytes32;
  signature_fits = signature-is_signature;
  signed = refl;
}

signed_at_10 : sign_offer abi bell sign token bandwidth_need_7 (pos 10) ≡ ok signed
signed_at_10 =
    ((sign_offer_lem abi bell sign token bandwidth_need_7 (pos 10)).0 signed).1 signed-Signed

fulfill-asked_example :
    (view : EntitlementView) × (get_entitlement (fulfill signed ada funded).1 7 ≡ ok view)
    × (view.start_time ≡ window.start)
    × (view.end_time ≡ window.end)
    × (view.issuer ≡ bell)
    × ((sid : Text) (resource_map : Dict Bytes Resolved) (resolved : Resolved)
        → Dict.get resource_map (from_hex (drop 2 resource_id)) ≡ some resolved
        → translate sid view resource_map ≡ ok (apply_bandwidth sid resolved 50000000 1 ∷ []))
fulfill-asked_example =
    fulfill-asked abi bell sign token (codes "hostA") (codes "hostB") 50000000 1 window 10 signed
      ada funded 7 (omega arith) (omega arith) signed_at_10 buys
