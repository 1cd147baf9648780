-- ===== src/Interfaces.antt =====
-- interfaces/src/a2a_interfaces: the shapes that cross a border (models.py) and, in the child
-- Ports, the two ports of the controller (ports.py). Texts and bytes are lists of numbers.
-- pydantic's validation is a predicate where a property needs it; JSON printing is not modelled.
pub mod Ports
pub mod Fixtures
pub mod Patterns
use a2a_tokenized_provisioni.Base.{ℕ, Bool, List}
use a2a_tokenized_provisioni.Base.Decimal.{Text}

pub data SessionState : Type 0 where
  requested authorized active torn_down failed : SessionState

pub data ErrorCode : Type 0 where
  e_unknown_entitlement e_not_owner e_bad_proof e_nonce_reused e_not_started e_expired e_revoked
        e_scope e_conflict e_network :
      ErrorCode

abbrev pub Bytes : Type 0
Bytes = List ℕ

-- decoded `params` of an entitlement: `BandwidthParams` or `TelemetryParams`
pub data Params : Type 0 where
  bandwidth_params : (capacity_bps qos_class : ℕ) → Params
  telemetry_params :
      (sensor_paths : List Text) (collector_endpoint : Text) (sample_interval_s : ℕ) → Params

pub record TimeWindow : Type 0 where
  pub start : ℕ
  pub end : ℕ

-- The union of `BandwidthNeed` and `TelemetryNeed`, told apart by `kind`.
pub data ServiceNeed : Type 0 where
  bandwidth_need : (src dst : Text) (capacity_bps qos_class : ℕ) (window : TimeWindow) → ServiceNeed
  telemetry_need :
      (target : Text) (sensor_paths : List Text) (collector_endpoint : Text) (sample_interval_s : ℕ)
      (window : TimeWindow)
      → ServiceNeed

-- `price` is the number that the decimal text of the offer writes.
pub record Offer : Type 0 where
  pub provider : Text
  pub consumer : Text
  pub service_type : ℕ
  pub resource_id : Text
  pub params : Text
  pub start_time : ℕ
  pub end_time : ℕ
  pub payment_token : Text
  pub price : ℕ
  pub valid_until : ℕ
  pub salt : Text
  pub terms_hash : Text

-- `terms_doc`, a free-form dictionary that no code reads, is left out.
pub record SignedOffer : Type 0 where
  pub offer : Offer
  pub signature : Text

pub record Decline : Type 0 where
  pub reason : Text

pub record SessionInfo : Type 0 where
  pub session_id : Text
  pub entitlement_id : ℕ
  pub state : SessionState
  pub since : ℕ
  pub expires_at : ℕ

pub record DecisionOutput : Type 0 where
  pub accept : Bool
  pub reason : Text

pub record EntitlementView : Type 0 where
  pub id : ℕ
  pub issuer : Text
  pub service_type : ℕ
  pub resource_id : Bytes
  pub params : Params
  pub start_time : ℕ
  pub end_time : ℕ
  pub revoked : Bool
  pub terms_hash : Bytes

-- A value of the resource map: `ResolvedPath` or `ResolvedNode`.
pub data Resolved : Type 0 where
  path : (device ingress_if egress_if : Text) → Resolved
  node : (device : Text) → Resolved

pub record ApplyResult : Type 0 where
  pub ok : Bool
  pub detail : Text
