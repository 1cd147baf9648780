-- ===== src/Netctl/Mock.antt =====
-- netctl/src/netctl/mock.py: `MockProvisioner`, which records what a router would have been told.
use a2a_tokenized_provisioni.Base.{
  ℕ, ◌≡◌, refl, true, none, some, List, [], ◌∷◌, ◌++◌, ◌==◌, if◌then◌else◌, arith, text_eq,
}
use a2a_tokenized_provisioni.Base.Decimal.{Text}
use a2a_tokenized_provisioni.Exec.{Exec, ok}
use a2a_tokenized_provisioni.Dict
use a2a_tokenized_provisioni.Dict.{Dict, get-put_self, get-put, get-remove_self, get-remove}
use a2a_tokenized_provisioni.Interfaces.{Resolved, ApplyResult}
use a2a_tokenized_provisioni.Interfaces.Ports.{NetworkProvisioner, TeardownReturns}
use a2a_tokenized_provisioni.Controller.Translators.{
  ProvisionerCall, apply_bandwidth, apply_telemetry, dispatch,
}

-- A record of `applied`; the two `nodes` of a telemetry record are the same in each and left out.
pub data Applied : Type 0 where
  bandwidth : (path : Resolved) (capacity_bps qos_class : ℕ) → Applied
  telemetry :
      (target : Resolved) (sensor_paths : List Text) (collector_endpoint : Text)
      (sample_interval_s : ℕ)
      → Applied

pub record MockNet : Type 0 where
  pub applied : Dict Text Applied
  pub torn_down : List Text

abbrev pub no_network : MockNet
no_network = record { applied = []; torn_down = [] }

-- `ApplyResult(ok=True)`
abbrev pub fine : ApplyResult
fine = record { ok = true; detail = [] }

unfoldable pub record_applied : Text → Applied → Exec MockNet ApplyResult
record_applied sid a m = (ok fine, record m { applied = Dict.put m.applied sid a })

unfoldable pub teardown : Text → Exec MockNet ApplyResult
teardown sid m =
    (ok fine, record { applied = Dict.remove m.applied sid; torn_down = m.torn_down ++ sid ∷ [] })

abbrev pub mock : NetworkProvisioner MockNet
mock = record {
  apply_bandwidth =
      λ sid path capacity_bps qos_class. record_applied sid (bandwidth path capacity_bps qos_class);
  apply_telemetry = λ sid target sensor_paths collector_endpoint sample_interval_s.
      record_applied sid (telemetry target sensor_paths collector_endpoint sample_interval_s);
  teardown = teardown;
  health = λ m. true;
}

-- the session that a call is for, and what the mock records of it
abbrev pub call_session : ProvisionerCall → Text
call_session (apply_bandwidth sid resolved capacity_bps qos_class) = sid
call_session (apply_telemetry sid target sensor_paths collector_endpoint sample_interval_s) = sid

abbrev pub call_record : ProvisionerCall → Applied
call_record (apply_bandwidth sid resolved capacity_bps qos_class) =
    bandwidth resolved capacity_bps qos_class
call_record (apply_telemetry sid target sensor_paths collector_endpoint sample_interval_s) =
    telemetry target sensor_paths collector_endpoint sample_interval_s

dispatch-record_applied :
    (call : ProvisionerCall) (m : MockNet)
    → dispatch mock call m ≡ record_applied (call_session call) (call_record call) m
unfolding dispatch
dispatch-record_applied (apply_bandwidth sid resolved capacity_bps qos_class) m = refl
dispatch-record_applied
      (apply_telemetry sid target sensor_paths collector_endpoint sample_interval_s) m =
    refl

pub teardown-TeardownReturns : TeardownReturns mock
unfolding teardown
teardown-TeardownReturns sid m = (fine, refl)

again-get :
    (call : ProvisionerCall) (m : MockNet) (other : Text)
    → let sid = call_session call in
      Dict.get (Dict.remove (Dict.remove (Dict.put m.applied sid (call_record call)) sid) sid) other
      ≡ (if sid == other then none else Dict.get m.applied other)
again-get call m other =
    let sid = call_session call in
    let d = Dict.put m.applied sid (call_record call) in
    ground (
      arith,
      get-remove (Dict.remove d sid) sid other,
      get-remove d sid other,
      get-put m.applied sid other (call_record call),
    )

-- The mock's calls: each is accepted, is then applied under its session as it was made, and is
-- gone after one teardown of that session or two; other sessions are never touched.
pub mock-applies :
    (call : ProvisionerCall) (m : MockNet)
    → let sid = call_session call in
      let (r, applied) = dispatch mock call m in
      let (r', cleared) = teardown sid applied in
      let (r'', again) = teardown sid cleared in
      (r ≡ ok fine)
      × (Dict.get applied.applied sid ≡ some (call_record call))
      × (r' ≡ ok fine)
      × (Dict.get cleared.applied sid ≡ none)
      × (r'' ≡ ok fine)
      × (Dict.get again.applied sid ≡ none)
      × ((other : Text)
          → (Dict.get applied.applied other
              ≡ (if sid == other then some (call_record call) else Dict.get m.applied other))
            × (Dict.get again.applied other
                ≡ (if sid == other then none else Dict.get m.applied other)))
unfolding teardown record_applied
mock-applies call m = rw dispatch-record_applied (
  refl,
  get-put_self m.applied (call_session call) (call_record call),
  refl,
  get-remove_self _ _,
  refl,
  get-remove_self _ _,
  λ other. (get-put m.applied (call_session call) other (call_record call), again-get call m other),
)
