-- ===== src/Agents/Catalogue.antt =====
-- agents/src/agents/catalogue.py: what is known of each service that is sold. The key of the table
-- is the kind of a need, which is one of its two; the texts for transcripts are left out. The ABI
-- encoder of eth_abi, which a telemetry need is written with, is a parameter.
pub mod Params
use a2a_tokenized_provisioni.Base.{ℕ, List, ◌++◌}
use a2a_tokenized_provisioni.Base.Decimal.{Text, codes}
use a2a_tokenized_provisioni.Base.Hex.{hex_word}
use a2a_tokenized_provisioni.Interfaces.{ServiceNeed, bandwidth_need, telemetry_need, TimeWindow}
use a2a_tokenized_provisioni.Interfaces.Fixtures.{resource_id, word}

-- `ServiceDesc` without its functions
pub record ServiceDesc : Type 0 where
  pub kind : Text
  pub service_type : ℕ
  pub list_price_tok : ℕ
  pub pool : ℕ
  pub resource_id : Text

-- `eth_abi.encode(["string[]", "string", "uint32"], ...).hex()`
abbrev pub AbiEncode : Type 0
AbiEncode = List Text → Text → ℕ → Text

-- `service_for(need.kind)`
unfoldable pub service_for : ServiceNeed → ServiceDesc
service_for (bandwidth_need src dst capacity_bps qos_class window) = record {
  kind = codes "bandwidth";
  service_type = 0;
  list_price_tok = 10;
  pool = 1000000000;
  resource_id = resource_id;
}
service_for (telemetry_need target sensor_paths collector_endpoint sample_interval_s window) =
    record {
      kind = codes "telemetry";
      service_type = 1;
      list_price_tok = 8;
      pool = 8;
      resource_id = codes "0x" ++ word 63 (codes "8");
    }

-- `svc.demand(need)`
unfoldable pub demand : ServiceNeed → ℕ
demand (bandwidth_need src dst capacity_bps qos_class window) = capacity_bps
demand (telemetry_need target sensor_paths collector_endpoint sample_interval_s window) = 1

-- `need.window`
abbrev pub window_of : ServiceNeed → TimeWindow
window_of (bandwidth_need src dst capacity_bps qos_class window) = window
window_of (telemetry_need target sensor_paths collector_endpoint sample_interval_s window) = window

-- `svc.encode_params(need)`: `_bandwidth_params` and `_telemetry_params`
unfoldable pub encode_params : AbiEncode → ServiceNeed → Text
encode_params abi (bandwidth_need src dst capacity_bps qos_class window) =
    codes "0x" ++ (hex_word 64 capacity_bps ++ hex_word 64 qos_class)
encode_params abi (telemetry_need target sensor_paths collector_endpoint sample_interval_s window) =
    codes "0x" ++ abi sensor_paths collector_endpoint sample_interval_s
