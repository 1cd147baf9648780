-- ===== src/Tests/Live.antt =====
-- Instances of the theorems on the running controller: requests, wakes and the loaded map.
use a2a_tokenized_provisioni.Base.{
  ◌+◌, ◌<◌, ◌≡◌, refl, false, none, some, List, [], ◌∷◌, ◌++◌, replicate, nat_eq, text_eq, text_beq,
}
use a2a_tokenized_provisioni.Base.Decimal.{Text, codes, decimal}
use a2a_tokenized_provisioni.Exec.{ok, raised, library_error}
use a2a_tokenized_provisioni.Dict
use a2a_tokenized_provisioni.Interfaces.{active}
use a2a_tokenized_provisioni.Interfaces.Ports.{EntitlementReader}
use a2a_tokenized_provisioni.Interfaces.Fixtures.{ada, canonical_entitlement_view}
use a2a_tokenized_provisioni.Interfaces.Patterns.{is_signature, is_kind}
use a2a_tokenized_provisioni.Controller.Activate
use a2a_tokenized_provisioni.Controller.App
use a2a_tokenized_provisioni.Controller.Auth
use a2a_tokenized_provisioni.Controller.Domain
use a2a_tokenized_provisioni.Controller.Runtime
use a2a_tokenized_provisioni.Controller.Service
use a2a_tokenized_provisioni.Controller.Teardown
use a2a_tokenized_provisioni.Controller.Translators
use a2a_tokenized_provisioni.Netctl.Mock
use a2a_tokenized_provisioni.Controller.Service.{Session, Service, Wiring}
use a2a_tokenized_provisioni.Controller.Activate.{new_session}
use a2a_tokenized_provisioni.Controller.App.{post_activate, get_session}
use a2a_tokenized_provisioni.Controller.Runtime.{
  ControllerRuntime, Event, requested, woke, started, wake, run, build_runtime,
}
use a2a_tokenized_provisioni.Controller.Runtime.Refines.{wake-expired}
use a2a_tokenized_provisioni.Controller.Runtime.Serves.{serve, run-serve}
use a2a_tokenized_provisioni.Controller.Runtime.Timers.{flag}
use a2a_tokenized_provisioni.Controller.ResourceMap.{Spec, load_resource_map}
use a2a_tokenized_provisioni.Controller.ResourceMap.Loads.{Outcome, load_resource_map_lem}
use a2a_tokenized_provisioni.Netctl.Mock.{MockNet, mock, teardown-TeardownReturns}
use a2a_tokenized_provisioni.Tests.World.{chain_at, wiring, opened, nonce, start_time}

-- a chain that cannot be reached for the time
abbrev silent : EntitlementReader
silent = record (chain_at start_time) { chain_time = raised library_error }

abbrev running_wiring : Wiring MockNet
running_wiring = record wiring { recover = λ message signature. ok ada }

abbrev signature : Text
signature = codes "0x" ++ replicate 130 b'0'

-- the timer starts, Ada activates, and a wake fails
abbrev events : List (Event MockNet)
events =
    started
    ∷ requested (chain_at start_time) [] (post_activate 7 (codes "bandwidth") nonce signature)
    ∷ woke silent 0
    ∷ []

abbrev before : ControllerRuntime MockNet
before = run running_wiring events (build_runtime opened)

run-serve_example :
    (run running_wiring events (build_runtime opened)).service
    ≡ serve running_wiring events 0 false opened
run-serve_example = run-serve running_wiring events opened

abbrev running : Session
running = new_session 7 0 canonical_entitlement_view start_time active

still_there :
    Dict.get
      (wake running_wiring (chain_at (start_time + 60)) 0 before).service.sessions
      running.session_id
    ≡ some running
unfolding wake run build_runtime Runtime.start_watchers App.app App.valid_request is_kind
    is_signature Activate.activate Activate.authorize Activate.open_session Activate.provision
    Service.view_of Service.known_id Service.mapped Service.active_ids Auth.verify Domain.predicate
    Domain.grants Domain.transition Translators.translate Translators.dispatch Mock.record_applied
    Teardown.tick Teardown.sweep Dict.get Dict.put Dict.remove Dict.keys text_beq App.respond
    Service.session_id decimal
still_there = refl

timer_live : flag 0 before.timers ≡ some false
unfolding wake run build_runtime Runtime.start_watchers App.app App.valid_request is_kind
    is_signature Activate.activate Activate.authorize Activate.open_session Activate.provision
    Service.view_of Service.known_id Service.mapped Service.active_ids Auth.verify Domain.predicate
    Domain.grants Domain.transition Translators.translate Translators.dispatch Mock.record_applied
    Teardown.tick Teardown.sweep Dict.get Dict.put Dict.remove Dict.keys text_beq App.respond
    Service.session_id decimal
timer_live = refl

wake-expired_example : start_time + 60 < running.expires_at
wake-expired_example =
    wake-expired running_wiring opened refl teardown-TeardownReturns events
      (chain_at (start_time + 60)) (start_time + 60) 0 timer_live refl running.session_id running
      still_there refl

abbrev entries : List (Text × Spec)
entries =
    (
      codes "0x07",
      record {
        kind = some (codes "path");
        device = some (codes "srl1");
        ingress_if = some (codes "ethernet-1/1");
        egress_if = some (codes "ethernet-1/2");
      },
    )
    ∷ (
      codes "0x08",
      record { kind = some (codes "link"); device = none; ingress_if = none; egress_if = none },
    )
    ∷ []

load_resource_map_lem_example : Outcome [] entries (load_resource_map (some entries))
load_resource_map_lem_example = load_resource_map_lem entries
