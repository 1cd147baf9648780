-- ===== src/Controller/Domain/Order.antt =====
-- domain.py: what the predicate admits, and which denial it reports when several hold.
use a2a_tokenized_provisioni.Base.{
  ℕ, ◌≡◌, ◌≢◌, ◌↔◌, ◌⊎◌, ◌≤◌, ◌<◌, true, false, Option, none, some, List, arith, elem, text_eq,
  nat_eq,
}
use a2a_tokenized_provisioni.Base.Decimal.{Text}
use a2a_tokenized_provisioni.Interfaces.{
  EntitlementView, ErrorCode, e_not_owner, e_not_started, e_expired, e_revoked, e_scope, e_conflict,
}
use a2a_tokenized_provisioni.Controller.Domain.{wrong_action, predicate}

module _ (view : EntitlementView) (owner requester : Text) (now : ℕ) (active_ids : List ℕ)
    (action_kind : Option Text) (known : List ℕ) where
  -- The terms of an entitlement that allow an activation now.
  pub record Admits : Type 0 where
    pub by_owner : requester ≡ owner
    pub started : view.start_time ≤ now
    pub unexpired : now < view.end_time
    pub unrevoked : view.revoked ≡ false
    pub translatable : elem view.service_type known ≡ true
    pub granted : wrong_action action_kind view.service_type ≡ false
    pub unbooked : elem view.id active_ids ≡ false

  -- Each denial, with the checks that come before it and pass.
  pub data Denies : ErrorCode → Type 0 where
    not_owner : requester ≢ owner → Denies e_not_owner
    not_started : requester ≡ owner → now < view.start_time → Denies e_not_started
    expired : requester ≡ owner → view.start_time ≤ now → view.end_time ≤ now → Denies e_expired
    revoked :
        requester ≡ owner
        → view.start_time ≤ now
        → now < view.end_time
        → view.revoked ≡ true
        → Denies e_revoked
    scope :
        requester ≡ owner
        → view.start_time ≤ now
        → now < view.end_time
        → view.revoked ≡ false
        → (elem view.service_type known ≡ false)
          ⊎ (wrong_action action_kind view.service_type ≡ true)
        → Denies e_scope
    conflict :
        requester ≡ owner
        → view.start_time ≤ now
        → now < view.end_time
        → view.revoked ≡ false
        → elem view.service_type known ≡ true
        → wrong_action action_kind view.service_type ≡ false
        → elem view.id active_ids ≡ true
        → Denies e_conflict

  -- The predicate returns None exactly when the entitlement admits the activation.
  pub predicate-none_iff :
      (predicate view owner requester now active_ids action_kind known ≡ none) ↔ Admits
  unfolding predicate
  predicate-none_iff = (
    λ h. ground (arith, text_eq.beq_iff requester owner),
    λ h. ground (arith, text_eq.beq_iff requester owner),
  )

  predicate-Denies :
      (code : ErrorCode)
      → predicate view owner requester now active_ids action_kind known ≡ some code
      → Denies code
  unfolding predicate
  predicate-Denies code h = grind (
    arith,
    text_eq.beq_iff requester owner,
    not_owner,
    not_started,
    expired,
    revoked,
    scope,
    conflict,
  )

  Denies-predicate :
      {code : ErrorCode}
      → Denies code
      → predicate view owner requester now active_ids action_kind known ≡ some code
  unfolding predicate
  Denies-predicate (not_owner a) = ground (arith, text_eq.beq_iff requester owner)
  Denies-predicate (not_started a b) = ground (arith, text_eq.beq_iff requester owner)
  Denies-predicate (expired a b c) = ground (arith, text_eq.beq_iff requester owner)
  Denies-predicate (revoked a b c d) = ground (arith, text_eq.beq_iff requester owner)
  Denies-predicate (scope a b c d x) = ground (arith, text_eq.beq_iff requester owner)
  Denies-predicate (conflict a b c d x y z) = ground (arith, text_eq.beq_iff requester owner)

  -- The predicate reports a code exactly when every earlier check passes and that one fails, in
  -- the order owner, start, end, revocation, scope, conflict.
  pub predicate-some_iff :
      (code : ErrorCode)
      → (predicate view owner requester now active_ids action_kind known ≡ some code) ↔ Denies code
  predicate-some_iff code = (predicate-Denies code, λ d. Denies-predicate d)
