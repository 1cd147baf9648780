-- ===== src/Agents/Tools/Served.antt =====
-- mcp_tools.py, app.py and service.py: the consumer's three calls against the controller's app.
pub mod Opens
pub mod Safe
use a2a_tokenized_provisioni.Base.{
  ℕ, ◌+◌, ◌≤◌, ◌≡◌, refl, true, some, [], ◌∷◌, ◌++◌, ◌∙◌, arith, ap, text_eq,
}
use a2a_tokenized_provisioni.Base.Decimal.{Text, codes}
use a2a_tokenized_provisioni.Exec.{Exec, Result, ok}
use a2a_tokenized_provisioni.Dict
use a2a_tokenized_provisioni.Interfaces.{EntitlementView, ApplyResult, active}
use a2a_tokenized_provisioni.Interfaces.Ports.{EntitlementReader}
use a2a_tokenized_provisioni.Controller.Auth.{nonce_ttl_s}
use a2a_tokenized_provisioni.Controller.Service.{Service, Wiring}
use a2a_tokenized_provisioni.Controller.App.{Request, Response, app}

-- The app in service: the requests so far, and the service. Each request finds the chain as it is
-- then, and a challenge takes the next random token.
pub record Served (N : Type 0) : Type 0 where
  pub requests : ℕ
  pub service : Service N

module _ {N : Type 0} (wiring : Wiring N) (chain : ℕ → EntitlementReader) (tokens : ℕ → Text) where
  -- the `http` of an app in the same process
  unfoldable pub client : Request → Exec (Served N) Response
  client request w =
      let (response, service') =
        app wiring (chain w.requests) (tokens w.requests) request w.service in
      (ok response, record { requests = w.requests + 1; service = service' })
