-- ===== src/Interfaces/Ports.antt =====
-- interfaces/src/a2a_interfaces/ports.py: what the controller depends on, as records.
use a2a_tokenized_provisioni.Base.{ℕ, ◌≡◌, Bool, List}
use a2a_tokenized_provisioni.Base.Decimal.{Text}
use a2a_tokenized_provisioni.Exec.{Exec, Result, ok}
use a2a_tokenized_provisioni.Interfaces.{EntitlementView, Resolved, ApplyResult}

-- The chain as one call of the controller sees it. The three reads are unrelated but for the law,
-- since the chain may move between them. A missing id raises.
pub record EntitlementReader : Type 0 where
  pub owner_of : ℕ → Result Text
  pub get : ℕ → Result EntitlementView
  pub chain_time : Result ℕ
  pub get_id : (i : ℕ) (v : EntitlementView) → get i ≡ ok v → v.id ≡ i

-- The network behind the provisioner is a state `N`; each operation changes it and reports.
pub record NetworkProvisioner (N : Type 0) : Type 0 where
  pub apply_bandwidth : Text → Resolved → ℕ → ℕ → Exec N ApplyResult
  pub apply_telemetry : Text → Resolved → List Text → Text → ℕ → Exec N ApplyResult
  pub teardown : Text → Exec N ApplyResult
  pub health : N → Bool

-- The documented duty of `teardown`: it returns, whatever it finds.
abbrev pub TeardownReturns : {N : Type 0} → NetworkProvisioner N → Type 0
TeardownReturns {N} net = (sid : Text) (n : N) → (r : ApplyResult) × ((net.teardown sid n).0 ≡ ok r)
