-- ===== src/Controller/Runtime.antt =====
-- controller/src/controller/wiring.py: `ControllerRuntime` and `ExpiryTimer`. Requests, wakes of
-- the timer's thread and calls of the watcher's come in any order, each with the chain as it is
-- then. What the reader's and the provisioner's `close` do is the library's.
pub mod Refines
pub mod Timers
pub mod Serves
use a2a_tokenized_provisioni.Base.{
  ℕ, zero, suc, Bool, true, false, Option, none, some, List, [], ◌∷◌, if◌then◌else◌,
}
use a2a_tokenized_provisioni.Base.Decimal.{Text}
use a2a_tokenized_provisioni.Exec.{Exec, Exception, Result, ok, raised, runtime_error}
use a2a_tokenized_provisioni.Interfaces.Ports.{EntitlementReader}
use a2a_tokenized_provisioni.Controller.Service.{Service, Wiring}
use a2a_tokenized_provisioni.Controller.Teardown.{tick, handle_revoked}
use a2a_tokenized_provisioni.Controller.App.{Request, Response, app}

-- `ExpiryTimer`, by its `_stop` and its `last_error`
pub record ExpiryTimer : Type 0 where
  pub stopped : Bool
  pub last_error : Option Exception

-- The timers that were started, the latest first, which alone is `_expiry`. `last_watch_error` is
-- that of the reader, whose thread calls the service back; `closed` is the reader's `_stop`, and
-- `watching` says whether `handle_revoked` is among its callbacks.
pub record ControllerRuntime (N : Type 0) : Type 0 where
  pub service : Service N
  pub timers : List ExpiryTimer
  pub watching : Bool
  pub closed : Bool
  pub last_watch_error : Option Exception

-- `except Exception as err: self.last_error = err`
abbrev pub noted : {A : Type 0} → Result A → Option Exception → Option Exception
noted (ok a) old = old
noted (raised x) old = some x

-- `ExpiryTimer.stop` of `_expiry`
abbrev pub stop : List ExpiryTimer → List ExpiryTimer
stop [] = []
stop (timer ∷ timers) = record timer { stopped = true } ∷ timers

module _ {N : Type 0} where
  -- `start_watchers`; `watch_revoked` of a closed reader raises before a timer is made
  unfoldable pub start_watchers : Exec (ControllerRuntime N) (Unit {0})
  start_watchers r = if r.closed then (raised runtime_error, r) else (
    ok tt,
    record r { watching = true; timers = record { stopped = false; last_error = none } ∷ r.timers },
  )

  unfoldable pub close : ControllerRuntime N → ControllerRuntime N
  close r = record r { timers = stop r.timers; closed = true }

pub data Event (N : Type 0) : Type 0 where
  requested : (reader : EntitlementReader) (token : Text) (request : Request) → Event N
  woke : (reader : EntitlementReader) (timer : ℕ) → Event N
  revoked : (reader : EntitlementReader) (id : ℕ) → Event N
  moved : (net : N) → Event N
  started closing : Event N

module _ {N : Type 0} (wiring : Wiring N) where
  -- a round of `ExpiryTimer._run`
  unfoldable pub run_timer : EntitlementReader → ExpiryTimer → Service N → ExpiryTimer × Service N
  run_timer reader timer s =
      let (result, s') = tick wiring reader s in
      if timer.stopped
      then (timer, s)
      else (record timer { last_error = noted result timer.last_error }, s')

  -- the thread of one of the timers wakes
  unfoldable pub run_nth :
      EntitlementReader → ℕ → List ExpiryTimer → Service N → List ExpiryTimer × Service N
  unfolding run_timer
  run_nth reader k [] s = ([], s)
  run_nth reader zero (timer ∷ timers) s =
      let (timer', s') = run_timer reader timer s in (timer' ∷ timers, s')
  run_nth reader (suc k) (timer ∷ timers) s =
      let (timers', s') = run_nth reader k timers s in (timer ∷ timers', s')

  unfoldable pub wake : EntitlementReader → ℕ → ControllerRuntime N → ControllerRuntime N
  unfolding run_nth
  wake reader k r =
      let (timers', service') = run_nth reader k r.timers r.service in
      record r { timers = timers'; service = service' }

  -- the reader's thread delivers an id to the callback, whose exceptions it keeps
  unfoldable pub deliver_revoked :
      EntitlementReader → (id : ℕ) → ControllerRuntime N → ControllerRuntime N
  deliver_revoked reader id r =
      let (result, service') = handle_revoked wiring reader id r.service in
      if r.watching
      then (if r.closed
          then r
          else record r { service = service'; last_watch_error = noted result r.last_watch_error })
      else r

  unfoldable pub react : Event N → ControllerRuntime N → ControllerRuntime N
  unfolding wake deliver_revoked start_watchers close
  react (requested reader token request) r = record r {
    service = (app wiring reader token request r.service).1;
  }
  react (woke reader k) r = wake reader k r
  react (revoked reader id) r = deliver_revoked reader id r
  react (moved net) r = record r { service = record r.service { net = net } }
  react started r = (start_watchers r).1
  react closing r = close r

  unfoldable pub run : List (Event N) → ControllerRuntime N → ControllerRuntime N
  unfolding react
  run [] r = r
  run (event ∷ events) r = run events (react event r)

-- `build_runtime`
unfoldable pub build_runtime : {N : Type 0} → Service N → ControllerRuntime N
build_runtime service = record {
  service = service;
  timers = [];
  watching = false;
  closed = false;
  last_watch_error = none;
}
