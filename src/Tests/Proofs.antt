-- ===== src/Tests/Proofs.antt =====
-- Instances of the theorems on proofs, the predicate, the diagram and the mock network.
use a2a_tokenized_provisioni.Base.{
  ℕ, ◌+◌, ◌≡◌, refl, ◌↔◌, ◌==◌, leb, if◌then◌else◌, none, some, [], ◌∷◌, arith, text_eq, nat_eq,
}
use a2a_tokenized_provisioni.Base.Decimal.{Text, codes}
use a2a_tokenized_provisioni.Dict
use a2a_tokenized_provisioni.Interfaces.{e_nonce_reused, e_bad_proof, e_expired}
use a2a_tokenized_provisioni.Interfaces.Fixtures.{ada, canonical_entitlement_view}
use a2a_tokenized_provisioni.Controller.Domain.{predicate, known_service_types}
use a2a_tokenized_provisioni.Controller.Domain.Order.{
  Admits, Denies, predicate-none_iff, predicate-some_iff,
}
use a2a_tokenized_provisioni.Controller.Auth.{AuthStore, issue, verify, nonce_ttl_s}
use a2a_tokenized_provisioni.Controller.Auth.Nonces.{
  Proven, verify-none_iff, verify-verify, verify-issue,
}
use a2a_tokenized_provisioni.Controller.Auth.Messages.{HasNoBar, proof_message_injective}
use a2a_tokenized_provisioni.Tests.World.{nonce, opened, recover, signature, signed, start_time}

abbrev store : AuthStore
store = opened.auth

verify-none_iff_example :
    ((verify recover 7 nonce signature ada start_time (codes "activate") store).0 ≡ none)
    ↔ Proven recover 7 nonce signature ada start_time (codes "activate") store
verify-none_iff_example =
    verify-none_iff recover 7 nonce signature ada start_time (codes "activate") store

verify-verify_example :
    let spent = (verify recover 7 nonce signature ada start_time (codes "activate") store).1 in
    ((verify recover 7 nonce signature ada start_time (codes "teardown") spent).0
      ≡ some e_nonce_reused)
    × ((other : Text)
        → Dict.get spent.open_nonces other
          ≡ (if nonce == other then none else Dict.get store.open_nonces other))
verify-verify_example =
    verify-verify recover 7 nonce signature ada start_time (codes "activate") store 7 signature ada
      start_time (codes "teardown")

verify-issue_example :
    let (challenge, refreshed) = issue (codes "00") 7 1757944600 store in
    (verify recover 7 challenge.nonce signature ada 1757944901 (codes "activate") refreshed).0
    ≡ (if leb 1757944901 (1757944600 + nonce_ttl_s) then none else some e_bad_proof)
verify-issue_example =
    verify-issue recover (codes "00") signature ada 7 1757944600 1757944901 store signed

predicate-none_iff_example :
    (predicate canonical_entitlement_view ada ada start_time []
        (some (codes "bandwidth"))
        known_service_types
      ≡ none)
    ↔ Admits canonical_entitlement_view ada ada start_time []
        (some (codes "bandwidth"))
        known_service_types
predicate-none_iff_example =
    predicate-none_iff canonical_entitlement_view ada ada start_time [] (some (codes "bandwidth"))
      known_service_types

predicate-some_iff_example :
    (predicate canonical_entitlement_view ada ada 1757952000 (7 ∷ []) none known_service_types
      ≡ some e_expired)
    ↔ Denies canonical_entitlement_view ada ada 1757952000
        (7 ∷ [])
        none
        known_service_types
        e_expired
predicate-some_iff_example =
    predicate-some_iff canonical_entitlement_view ada ada 1757952000 (7 ∷ []) none
      known_service_types e_expired

nonce-HasNoBar : HasNoBar nonce
nonce-HasNoBar = (
  λ e. omega (arith, e),
  (λ e. omega (arith, e), (λ e. omega (arith, e), (λ e. omega (arith, e), tt))),
)

activate-HasNoBar : HasNoBar (codes "activate")
activate-HasNoBar = (
  λ e. omega (arith, e),
  (
    λ e. omega (arith, e),
    (
      λ e. omega (arith, e),
      (
        λ e. omega (arith, e),
        (
          λ e. omega (arith, e),
          (λ e. omega (arith, e), (λ e. omega (arith, e), (λ e. omega (arith, e), tt))),
        ),
      ),
    ),
  ),
)

proof_message_injective_example :
    (codes "activate" ≡ codes "activate")
    × (nonce ≡ nonce)
    × (◌≡◌ {A = ℕ} 7 7)
    × (◌≡◌ {A = ℕ} 1757944900 1757944900)
proof_message_injective_example =
    proof_message_injective (codes "bell") nonce nonce (codes "activate") (codes "activate") 7 7
      1757944900 1757944900 nonce-HasNoBar nonce-HasNoBar activate-HasNoBar activate-HasNoBar refl
