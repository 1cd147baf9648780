-- ===== src/Controller/Translators.antt =====
-- controller/src/controller/translators.py: from an entitlement's terms to provisioner calls.
use a2a_tokenized_provisioni.Base.{
  ℕ, none, some, List, [], ◌∷◌, ◌==◌, if◌then◌else◌, text_eq, nat_eq,
}
use a2a_tokenized_provisioni.Base.Decimal.{Text}
use a2a_tokenized_provisioni.Exec.{
  Exec, Result, ok, raised, unmapped_resource, attribute_error, assertion_error,
}
use a2a_tokenized_provisioni.Dict
use a2a_tokenized_provisioni.Dict.{Dict}
use a2a_tokenized_provisioni.Interfaces.{
  Bytes, Params, bandwidth_params, telemetry_params, EntitlementView, Resolved, ApplyResult,
}
use a2a_tokenized_provisioni.Interfaces.Ports.{NetworkProvisioner}

-- `method` and `kwargs` of a `ProvisionerCall`
pub data ProvisionerCall : Type 0 where
  apply_bandwidth :
      (session_id : Text) (path : Resolved) (capacity_bps qos_class : ℕ) → ProvisionerCall
  apply_telemetry :
      (session_id : Text) (target : Resolved) (sensor_paths : List Text) (collector_endpoint : Text)
      (sample_interval_s : ℕ)
      → ProvisionerCall

-- `_bandwidth`; the attribute of the other kind of params is missing
unfoldable pub bandwidth : Text → Params → Resolved → Result (List ProvisionerCall)
bandwidth session_id (bandwidth_params capacity_bps qos_class) resolved =
    ok (apply_bandwidth session_id resolved capacity_bps qos_class ∷ [])
bandwidth session_id (telemetry_params sensor_paths collector_endpoint sample_interval_s) resolved =
    raised attribute_error

-- `_telemetry`
unfoldable pub telemetry : Text → Params → Resolved → Result (List ProvisionerCall)
telemetry session_id (telemetry_params sensor_paths collector_endpoint sample_interval_s) resolved =
    ok (apply_telemetry session_id resolved sensor_paths collector_endpoint sample_interval_s ∷ [])
telemetry session_id (bandwidth_params capacity_bps qos_class) resolved = raised attribute_error

unfoldable pub translate :
    Text → EntitlementView → Dict Bytes Resolved → Result (List ProvisionerCall)
unfolding bandwidth telemetry
translate session_id view resource_map = elim (Dict.get resource_map view.resource_id) [
  | none ↦ raised (unmapped_resource view.resource_id)
  | some resolved ↦
      if view.service_type == 0
      then bandwidth session_id view.params resolved
      else if view.service_type == 1
      then telemetry session_id view.params resolved
      else raised assertion_error
]

-- `getattr(self._net, call.method)(**call.kwargs)`
unfoldable pub dispatch : {N : Type 0} → NetworkProvisioner N → ProvisionerCall → Exec N ApplyResult
dispatch net (apply_bandwidth session_id resolved capacity_bps qos_class) =
    net.apply_bandwidth session_id resolved capacity_bps qos_class
dispatch net (apply_telemetry session_id target sensor_paths collector_endpoint sample_interval_s) =
    net.apply_telemetry session_id target sensor_paths collector_endpoint sample_interval_s
