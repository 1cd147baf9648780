-- ===== src/Interfaces/Fixtures.antt =====
-- interfaces/src/a2a_interfaces/fixtures.py: the canonical example, Ada's ticket #7 from Bell and
-- the telemetry ticket #8. The terms document and the two needs' JSON are left out.
use a2a_tokenized_provisioni.Base.{ℕ, false, List, [], ◌∷◌, ◌++◌, replicate}
use a2a_tokenized_provisioni.Base.Decimal.{Text, codes}
use a2a_tokenized_provisioni.Interfaces.{
  Bytes, bandwidth_params, telemetry_params, TimeWindow, ServiceNeed, bandwidth_need,
  telemetry_need, Offer, SignedOffer, EntitlementView, Resolved, path, node,
}

abbrev pub ada : Text
ada = codes "0xf39Fd6e51aad88F6F4ce6aB8827279cffFb92266"

abbrev pub bell : Text
bell = codes "0x70997970C51812dc3A010C7d01b50e0d17dc79C8"

abbrev pub zero_address : Text
zero_address = codes "0x" ++ replicate 40 b'0'

abbrev pub mock_tok : Text
mock_tok = codes "0x5FbDB2315678afecb367f032d93F642f64180aa3"

abbrev pub price_10_tok : ℕ
price_10_tok = 10000000000000000000

abbrev pub window : TimeWindow
window = record { start = 1757944800; end = 1757952000 }

-- f"{n:064x}", for a value whose hexadecimal digits are `digits`
abbrev pub word : (zeros : ℕ) (digits : Text) → Text
word zeros digits = replicate zeros b'0' ++ digits

abbrev pub resource_id : Text
resource_id = codes "0x" ++ word 63 (codes "7")

abbrev pub salt : Text
salt = codes "0x" ++ word 60 (codes "5a17")

abbrev pub terms_hash : Text
terms_hash = codes "0x" ++ replicate 64 b'2'

abbrev pub bandwidth_params_abi : Text
bandwidth_params_abi = codes "0x" ++ (word 57 (codes "2faf080") ++ word 63 (codes "1"))

abbrev pub bandwidth_need_7 : ServiceNeed
bandwidth_need_7 = bandwidth_need (codes "hostA") (codes "hostB") 50000000 1 window

abbrev pub sensor_paths : List Text
sensor_paths = codes "/interface[name=ethernet-1/1]/statistics" ∷ []

abbrev pub telemetry_need_8 : ServiceNeed
telemetry_need_8 = telemetry_need (codes "leafA") sensor_paths (codes "10.0.0.50:57000") 10 window

abbrev pub canonical_offer : Offer
canonical_offer = record {
  provider = bell;
  consumer = zero_address;
  service_type = 0;
  resource_id = resource_id;
  params = bandwidth_params_abi;
  start_time = 1757944800;
  end_time = 1757952000;
  payment_token = mock_tok;
  price = price_10_tok;
  valid_until = 1757946000;
  salt = salt;
  terms_hash = terms_hash;
}

abbrev pub canonical_signed_offer : SignedOffer
canonical_signed_offer = record {
  offer = canonical_offer;
  signature = codes "0x" ++ replicate 130 b'a';
}

abbrev pub resource_bytes : ℕ → Bytes
resource_bytes n = replicate 31 0 ++ n ∷ []

abbrev pub canonical_entitlement_view : EntitlementView
canonical_entitlement_view = record {
  id = 7;
  issuer = bell;
  service_type = 0;
  resource_id = resource_bytes 7;
  params = bandwidth_params 50000000 1;
  start_time = 1757944800;
  end_time = 1757952000;
  revoked = false;
  terms_hash = replicate 32 34;
}

abbrev pub resolved_path : Resolved
resolved_path = path (codes "srl1") (codes "ethernet-1/1") (codes "ethernet-1/2")

abbrev pub resolved_node : Resolved
resolved_node = node (codes "srl1")

abbrev pub telemetry_entitlement_view : EntitlementView
telemetry_entitlement_view = record {
  id = 8;
  issuer = bell;
  service_type = 1;
  resource_id = resource_bytes 8;
  params = telemetry_params sensor_paths (codes "10.0.0.50:57000") 10;
  start_time = 1757944800;
  end_time = 1757952000;
  revoked = false;
  terms_hash = replicate 32 34;
}
