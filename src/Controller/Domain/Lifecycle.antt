-- ===== src/Controller/Domain/Lifecycle.antt =====
-- domain.py: the arrows of the session diagram, and the histories that it allows.
use a2a_tokenized_provisioni.Base.{
  ◌≡◌, refl, ◌≢◌, ◌↔◌, ◌⊎◌, inl, inr, List, [], ◌∷◌, arith, text_eq, text_beq, text_beq_iff, Bool,
  true, ◌==◌, if◌then◌else◌,
}
use a2a_tokenized_provisioni.Base.Decimal.{Text, codes}
use a2a_tokenized_provisioni.Exec.{Result, ok, raised, illegal_transition}
use a2a_tokenized_provisioni.Interfaces.{
  SessionState, requested, authorized, active, torn_down, failed,
}
use a2a_tokenized_provisioni.Controller.Domain.{transition}

-- The diagram: five arrows, and the two loops of a teardown that comes again.
pub data Moves (s : SessionState) (event : Text) (t : SessionState) : Type 0 where
  authorize : s ≡ requested → event ≡ codes "authorize" → t ≡ authorized → Moves s event t
  deny : s ≡ requested → event ≡ codes "deny" → t ≡ failed → Moves s event t
  provision_ok : s ≡ authorized → event ≡ codes "provision_ok" → t ≡ active → Moves s event t
  provision_failed :
      s ≡ authorized → event ≡ codes "provision_failed" → t ≡ failed → Moves s event t
  end : s ≡ active → event ≡ codes "teardown" → t ≡ torn_down → Moves s event t
  again : (s ≡ torn_down) ⊎ (s ≡ failed) → event ≡ codes "teardown" → t ≡ s → Moves s event t

module _ (event : Text) where
  abbrev is : Text → Bool
  is name = name == event

  transition-requested : transition requested event ≡ (
      if is (codes "authorize")
      then ok authorized
      else if is (codes "deny")
      then ok failed
      else raised (illegal_transition requested event))
  unfolding transition
  transition-requested = ground arith

  transition-authorized : transition authorized event ≡ (
      if is (codes "provision_ok")
      then ok active
      else if is (codes "provision_failed")
      then ok failed
      else raised (illegal_transition authorized event))
  unfolding transition
  transition-authorized = ground arith

  transition-active :
      transition active event
      ≡ (if is (codes "teardown") then ok torn_down else raised (illegal_transition active event))
  unfolding transition
  transition-active = ground arith

  transition-torn_down : transition torn_down event ≡ (
      if is (codes "teardown") then ok torn_down else raised (illegal_transition torn_down event))
  unfolding transition
  transition-torn_down = ground arith

  transition-failed :
      transition failed event
      ≡ (if is (codes "teardown") then ok failed else raised (illegal_transition failed event))
  unfolding transition
  transition-failed = ground arith

  -- what the tests on the event say
  event_iff : (name : Text) → (is name ≡ true) ↔ (name ≡ event)
  event_iff name = text_beq_iff name event

  transition-Moves : (s t : SessionState) → transition s event ≡ ok t → Moves s event t
  transition-Moves requested t h = grind (arith, transition-requested, event_iff, authorize, deny)
  transition-Moves authorized t h =
      grind (arith, transition-authorized, event_iff, provision_ok, provision_failed)
  transition-Moves active t h = grind (arith, transition-active, event_iff, end)
  transition-Moves torn_down t h = grind (arith, transition-torn_down, event_iff, again)
  transition-Moves failed t h = grind (arith, transition-failed, event_iff, again)

Moves-transition : (event : Text) (s t : SessionState) → Moves s event t → transition s event ≡ ok t
Moves-transition event s t (authorize p q r) = rw (p, q, r) (unfold transition text_beq in refl)
Moves-transition event s t (deny p q r) = rw (p, q, r) (unfold transition text_beq in refl)
Moves-transition event s t (provision_ok p q r) = rw (p, q, r) (unfold transition text_beq in refl)
Moves-transition event s t (provision_failed p q r) =
    rw (p, q, r) (unfold transition text_beq in refl)
Moves-transition event s t (end p q r) = rw (p, q, r) (unfold transition text_beq in refl)
Moves-transition event s t (again (inl p) q r) = rw (r, p, q) (unfold transition text_beq in refl)
Moves-transition event s t (again (inr p) q r) = rw (r, p, q) (unfold transition text_beq in refl)

-- A transition returns exactly along the arrows of the diagram; any other pair raises.
pub transition-ok_iff :
    (s t : SessionState) (event : Text) → (transition s event ≡ ok t) ↔ Moves s event t
transition-ok_iff s t event = (transition-Moves event s t, Moves-transition event s t)

-- The state after a history of events.
pub run : SessionState → List Text → Result SessionState
run s [] = ok s
run s (event ∷ events) = elim (transition s event) [ ok t ↦ run t events | raised x ↦ raised x ]

run-torn_down : (events : List Text) → run torn_down events ≢ ok active
unfolding run
run-torn_down [] h = cc
run-torn_down (event ∷ events) h = ground (arith, transition-torn_down event, run-torn_down events)

run-failed : (events : List Text) → run failed events ≢ ok active
unfolding run
run-failed [] h = cc
run-failed (event ∷ events) h = ground (arith, transition-failed event, run-failed events)

run-active : (events : List Text) → run active events ≡ ok active → events ≡ []
unfolding run
run-active [] h = refl
run-active (event ∷ events) h = ground (arith, transition-active event, run-torn_down events)

run-authorized :
    (events : List Text) → run authorized events ≡ ok active → events ≡ codes "provision_ok" ∷ []
unfolding run
run-authorized [] h = cc
run-authorized (event ∷ events) h = ground (
  arith,
  transition-authorized event,
  event_iff event (codes "provision_ok"),
  run-active events,
  run-failed events,
)

run-requested :
    (events : List Text)
    → run requested events ≡ ok active
    → events ≡ codes "authorize" ∷ codes "provision_ok" ∷ []
unfolding run
run-requested [] h = cc
run-requested (event ∷ events) h = ground (
  arith,
  transition-requested event,
  event_iff event (codes "authorize"),
  run-authorized events,
  run-failed events,
)

-- A session is active after exactly one history: it was authorized, and then provisioned.
pub run-active_iff :
    (events : List Text)
    → (run requested events ≡ ok active) ↔ (events ≡ codes "authorize" ∷ codes "provision_ok" ∷ [])
run-active_iff events = (run-requested events, λ e. rw e (unfold run transition text_beq in refl))
