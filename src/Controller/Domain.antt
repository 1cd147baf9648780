-- ===== src/Controller/Domain.antt =====
-- controller/src/controller/domain.py: the predicate, and the state machine of a session as data.
pub mod Order
pub mod Lifecycle
use a2a_tokenized_provisioni.Base.{
  ℕ, ◌≡◌, refl, Bool, true, false, not, Option, none, some, List, [], ◌∷◌, arith, Eq, ◌==◌, elem,
  ltb, leb, nat_beq, if◌then◌else◌, ◌&&◌, ◌↔◌, text_eq, nat_eq, text_beq,
}
use a2a_tokenized_provisioni.Base.Decimal.{Text, codes}
use a2a_tokenized_provisioni.Exec.{Result, ok, raised, illegal_transition}
use a2a_tokenized_provisioni.Dict
use a2a_tokenized_provisioni.Dict.{Dict}
use a2a_tokenized_provisioni.Interfaces.{
  EntitlementView, ErrorCode, e_not_owner, e_not_started, e_expired, e_revoked, e_scope, e_conflict,
  SessionState, requested, authorized, active, torn_down, failed,
}

abbrev pub known_service_types : List ℕ
known_service_types = 0 ∷ 1 ∷ []

abbrev pub action_kinds : Dict Text ℕ
action_kinds = (codes "bandwidth", 0) ∷ (codes "telemetry", 1) ∷ []

-- `ACTION_KINDS.get(kind) == service_type`
unfoldable pub grants : Text → ℕ → Bool
unfolding Dict.get
grants kind service_type = elim (Dict.get action_kinds kind) [
  | none ↦ false
  | some t ↦ t == service_type
]

-- `action_kind is not None and ACTION_KINDS.get(action_kind) != service_type`
abbrev pub wrong_action : Option Text → ℕ → Bool
wrong_action none service_type = false
wrong_action (some kind) service_type = not (grants kind service_type)

unfoldable pub predicate :
    EntitlementView
    → (owner requester : Text) (now : ℕ) (active_ids : List ℕ) (action_kind : Option Text)
      (known : List ℕ)
    → Option ErrorCode
predicate view owner requester now active_ids action_kind known =
    if not (requester == owner)
    then some e_not_owner
    else if ltb now view.start_time
    then some e_not_started
    else if leb view.end_time now
    then some e_expired
    else if view.revoked
    then some e_revoked
    else if not (elem view.service_type known)
    then some e_scope
    else if wrong_action action_kind view.service_type
    then some e_scope
    else if elem view.id active_ids
    then some e_conflict
    else none

abbrev pub rank : SessionState → ℕ
rank requested = 0
rank authorized = 1
rank active = 2
rank torn_down = 3
rank failed = 4

abbrev pub state_beq : SessionState → SessionState → Bool
state_beq s t = nat_beq (rank s) (rank t)

pub state_beq_iff : (s t : SessionState) → (state_beq s t ≡ true) ↔ (s ≡ t)
state_beq_iff s t = ground arith

instance abbrev pub state_eq : Eq SessionState
state_eq = record { beq = state_beq; beq_iff = state_beq_iff }

abbrev pub move_beq : SessionState × Text → SessionState × Text → Bool
move_beq (s, e) (t, f) = s == t && e == f

pub move_beq_iff : (p q : SessionState × Text) → (move_beq p q ≡ true) ↔ (p ≡ q)
move_beq_iff (s, e) (t, f) = ground (arith, state_beq_iff s t, text_eq.beq_iff e f)

-- keys of the tables: a state with an event
instance abbrev pub move_eq : Eq (SessionState × Text)
move_eq = record { beq = move_beq; beq_iff = move_beq_iff }

abbrev pub transitions : Dict (SessionState × Text) SessionState
transitions =
    ((requested, codes "authorize"), authorized)
    ∷ ((requested, codes "deny"), failed)
    ∷ ((authorized, codes "provision_ok"), active)
    ∷ ((authorized, codes "provision_failed"), failed)
    ∷ ((active, codes "teardown"), torn_down)
    ∷ []

-- `_ABSORBED`
abbrev pub absorbed : List (SessionState × Text)
absorbed = (torn_down, codes "teardown") ∷ (failed, codes "teardown") ∷ []

unfoldable pub transition : SessionState → Text → Result SessionState
unfolding Dict.get
transition state event =
    if elem (state, event) absorbed then ok state else elim (Dict.get transitions (state, event)) [
      | none ↦ raised (illegal_transition state event)
      | some next ↦ ok next
    ]

pub transition-teardown :
    (s : SessionState)
    → transition s (codes "teardown") ≡ elim s [
      | requested ↦ raised (illegal_transition requested (codes "teardown"))
      | authorized ↦ raised (illegal_transition authorized (codes "teardown"))
      | active ↦ ok torn_down
      | torn_down ↦ ok torn_down
      | failed ↦ ok failed
    ]
unfolding transition text_beq
transition-teardown requested = refl
transition-teardown authorized = refl
transition-teardown active = refl
transition-teardown torn_down = refl
transition-teardown failed = refl

-- the three moves of an activation
pub transition-authorize : transition requested (codes "authorize") ≡ ok authorized
unfolding transition text_beq
transition-authorize = refl

pub transition-provision_ok : transition authorized (codes "provision_ok") ≡ ok active
unfolding transition text_beq
transition-provision_ok = refl

pub transition-provision_failed : transition authorized (codes "provision_failed") ≡ ok failed
unfolding transition text_beq
transition-provision_failed = refl
