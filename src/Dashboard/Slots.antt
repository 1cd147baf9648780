-- ===== src/Dashboard/Slots.antt =====
-- orchestrator.py: what the console shows of a ticket against the predicate, and what becomes of a
-- decline of Bell's model.
use a2a_tokenized_provisioni.Base.{
  ℕ, ◌≡◌, ◌↔◌, Bool, true, none, List, [], ◌∷◌, ◌&&◌, arith, text_eq, nat_eq, text_beq_iff,
}
use a2a_tokenized_provisioni.Base.Decimal.{Text}
use a2a_tokenized_provisioni.Interfaces.{EntitlementView}
use a2a_tokenized_provisioni.Controller.Domain.{predicate, known_service_types}
use a2a_tokenized_provisioni.Dashboard.{predicate_checks}

abbrev pub all_ok : List Bool → Bool
all_ok [] = true
all_ok (check ∷ checks) = check && all_ok checks

-- The console shows a ticket with all its checks met exactly when the predicate admits its owner at
-- that time, where no action is named and nothing is active.
pub predicate_checks-all_ok_iff :
    (view : EntitlementView) (owner : Text) (now : ℕ)
    → (all_ok (predicate_checks view now) ≡ true)
      ↔ (predicate view owner owner now [] none known_service_types ≡ none)
unfolding predicate predicate_checks
predicate_checks-all_ok_iff view owner now = (
  λ h. ground (arith, h, text_beq_iff owner owner),
  λ h. ground (arith, h, text_beq_iff owner owner),
)
