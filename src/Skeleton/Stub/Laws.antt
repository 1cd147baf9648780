-- ===== src/Skeleton/Stub/Laws.antt =====
-- stub_controller.py: its predicate is the controller's, a nonce serves once, and no nonce is
-- issued twice.
use a2a_tokenized_provisioni.Base.{
  ℕ, ◌≡◌, ◌≢◌, refl, false, none, List, [], ◌∷◌, ◌==◌, elem, arith, text_eq, nat_eq, nat_beq_iff,
  text_beq_iff, inl, inr, Bool-cases, Option-cases,
}
use a2a_tokenized_provisioni.Base.Decimal.{Text}
use a2a_tokenized_provisioni.Exec.{ok, raised, denied}
use a2a_tokenized_provisioni.Dict
use a2a_tokenized_provisioni.Dict.{get-put_self}
use a2a_tokenized_provisioni.Interfaces.{EntitlementView, ApplyResult, e_nonce_reused, torn_down}
use a2a_tokenized_provisioni.Interfaces.Ports.{
  EntitlementReader, NetworkProvisioner, TeardownReturns,
}
use a2a_tokenized_provisioni.Controller.Domain.{predicate, known_service_types, state_eq}
use a2a_tokenized_provisioni.Skeleton.Stub.{
  StubController, stub_predicate, discard, activate, admit, teardown, mark_down,
}

-- Except for telemetry, which the stub never admits, its predicate is the controller's with no
-- action named: the same codes in the same order.
pub stub_predicate-eq :
    (view : EntitlementView) (owner requester : Text) (now : ℕ) (active_ids : List ℕ)
    → view.service_type ≢ 1
    → stub_predicate view owner requester now active_ids
      ≡ predicate view owner requester now active_ids none known_service_types
unfolding stub_predicate predicate
stub_predicate-eq view owner requester now active_ids h =
    ground (arith, h, nat_beq_iff view.service_type 1, nat_beq_iff 1 view.service_type)

elem-discard : (nonce : Text) (nonces : List Text) → elem nonce (discard nonce nonces) ≡ false
unfolding discard
elem-discard nonce [] = refl
elem-discard nonce (n ∷ nonces) = ground (arith, elem-discard nonce nonces, text_beq_iff n nonce)

module _ {N : Type 0} (net : NetworkProvisioner N) where
  admit-open_nonces :
      (chain : EntitlementReader) (id : ℕ) (requester : Text) (s : StubController N)
      → (admit net chain id requester s).1.open_nonces ≡ s.open_nonces
  unfolding admit
  admit-open_nonces chain id requester s = ground arith

  activate-unissued :
      (chain : EntitlementReader) (id : ℕ) (requester nonce : Text) (s : StubController N)
      → elem nonce s.open_nonces ≡ false
      → activate net chain id requester nonce s ≡ (raised (denied e_nonce_reused), s)
  unfolding activate
  activate-unissued chain id requester nonce s h = rw h refl

  activate-spends :
      (chain : EntitlementReader) (id : ℕ) (requester nonce : Text) (s : StubController N)
      → elem nonce (activate net chain id requester nonce s).1.open_nonces ≡ false
  unfolding activate
  activate-spends chain id requester nonce s = elim (Bool-cases (elem nonce s.open_nonces)) [
    | inl issued ↦
        let burnt : StubController N = record s { open_nonces = discard nonce s.open_nonces } in
        rw (issued, admit-open_nonces chain id requester burnt) (elem-discard nonce s.open_nonces)
    | inr unissued ↦ rw unissued unissued
  ]

  -- Whatever becomes of an activation, a later one with its nonce is denied as reused and changes
  -- nothing, for any chain, entitlement and requester.
  pub activate-activate :
      (chain later : EntitlementReader) (id other : ℕ) (requester who nonce : Text)
      (s : StubController N)
      → let t = (activate net chain id requester nonce s).1 in
        activate net later other who nonce t ≡ (raised (denied e_nonce_reused), t)
  activate-activate chain later id other requester who nonce s =
      activate-unissued later other who nonce (activate net chain id requester nonce s).1
        (activate-spends chain id requester nonce s)

  mark_down-mark_down :
      (sid : Text) (s : StubController N) (n : N)
      → let t = (mark_down net sid (Dict.get s.sessions sid) s).1 in
        mark_down net sid (Dict.get t.sessions sid) (record t { net = n })
        ≡ (ok tt, record t { net = n })
  unfolding mark_down
  mark_down-mark_down sid s n = elim (Option-cases (Dict.get s.sessions sid)) [
    | inl e ↦ rw (e, e) refl
    | inr (x, e) ↦ elim (Bool-cases (x.state == torn_down)) [
      | inl down ↦ rw (e, down, e, down) refl
      | inr up ↦ rw (e, up, get-put_self s.sessions sid (record x { state = torn_down })) refl
    ]
  ]

  pub teardown-eq :
      (sid : Text) (s : StubController N) (r : ApplyResult)
      → (net.teardown sid s.net).0 ≡ ok r
      → teardown net sid s
        ≡ mark_down net sid
            (Dict.get s.sessions sid)
            (record s { net = (net.teardown sid s.net).1 })
  unfolding teardown
  teardown-eq sid s r e = rw e refl

  -- Where the provisioner's teardown always returns, a second teardown of a session returns and
  -- leaves the sessions as the first left them.
  pub teardown-teardown_stub :
      TeardownReturns net
      → (sid : Text) (s : StubController N)
      → let t = (teardown net sid s).1 in
        let (r, u) = teardown net sid t in (r ≡ ok tt) × (u.sessions ≡ t.sessions)
  teardown-teardown_stub returns sid s =
      let (a, p) = returns sid s.net in
      let s' : StubController N = record s { net = (net.teardown sid s.net).1 } in
      let t = (mark_down net sid (Dict.get s.sessions sid) s').1 in
      let (b, q) = returns sid t.net in
      rw
        (
          teardown-eq sid s a p,
          teardown-eq sid t b q,
          mark_down-mark_down sid s' (net.teardown sid t.net).1,
        )
        (refl, refl)
