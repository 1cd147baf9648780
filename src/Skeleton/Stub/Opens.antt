-- ===== src/Skeleton/Stub/Opens.antt =====
-- stub_controller.py over the recording network: `activate` keeps what holds between two calls.
use a2a_tokenized_provisioni.Base.{
  ℕ, ◌+◌, ◌≡◌, ap, ◌∙◌, sym, false, none, some, List, ◌++◌, elem, inl, inr, Option-cases,
  Bool-cases, arith, text_eq, nat_eq,
}
use a2a_tokenized_provisioni.Base.Decimal.{Text, codes, decimal}
use a2a_tokenized_provisioni.Exec.{Result-cases, ok, raised-ne-ok}
use a2a_tokenized_provisioni.Dict
use a2a_tokenized_provisioni.Dict.{Dict}
use a2a_tokenized_provisioni.Interfaces.{
  Bytes, Params, bandwidth_params, telemetry_params, EntitlementView, Resolved,
}
use a2a_tokenized_provisioni.Interfaces.Ports.{EntitlementReader}
use a2a_tokenized_provisioni.Interfaces.Fixtures.{resolved_path}
use a2a_tokenized_provisioni.Controller.Domain.{predicate}
use a2a_tokenized_provisioni.Netctl.Mock.{MockNet, mock, record_applied}
use a2a_tokenized_provisioni.Skeleton.Stub.{
  StubController, stub_predicate, resolve, bandwidth_of, booked_ids, discard, admit, activate,
}
use a2a_tokenized_provisioni.Skeleton.Stub.Backed.{IsBacked, IsBacked-open}

-- The counters and the nonces do not matter.
pub IsBacked-count :
    (tokens : Dict ℕ EntitlementView) (s : StubController MockNet) (nonces : List Text) (n m : ℕ)
    → IsBacked tokens s
    → IsBacked tokens (record s { open_nonces = nonces; nonce_seq = n; session_seq = m })
IsBacked-count tokens s nonces n m b = record {
  named = b.named;
  carried = b.carried;
  ended = b.ended;
  only = b.only;
  single = b.single;
}

resolve-ok : (id : Bytes) (r : Resolved) → resolve id ≡ ok r → r ≡ resolved_path
unfolding resolve Dict.get
resolve-ok id r h = ground (arith, h)

bandwidth_of-ok :
    (params : Params) (capacity_bps qos_class : ℕ)
    → bandwidth_of params ≡ ok (capacity_bps, qos_class)
    → params ≡ bandwidth_params capacity_bps qos_class
unfolding bandwidth_of
bandwidth_of-ok (bandwidth_params a b) capacity_bps qos_class h = cc
bandwidth_of-ok (telemetry_params a b c) capacity_bps qos_class h = absurd (raised-ne-ok h)

stub_predicate-unbooked :
    (view : EntitlementView) (owner requester : Text) (now : ℕ) (ids : List ℕ)
    → stub_predicate view owner requester now ids ≡ none
    → elem view.id ids ≡ false
unfolding stub_predicate predicate
stub_predicate-unbooked view owner requester now ids h = ground arith

module _ (chain : EntitlementReader) (tokens : Dict ℕ EntitlementView)
    (reads : (i : ℕ) (v : EntitlementView) → chain.get i ≡ ok v → Dict.get tokens i ≡ some v)
    (id : ℕ) (requester : Text) where
  admit-IsBacked :
      (s : StubController MockNet)
      → IsBacked tokens s
      → IsBacked tokens (admit mock chain id requester s).1
  unfolding admit record_applied
  admit-IsBacked s b = elim (Result-cases (chain.get id)) [
    | inr (x, e) ↦ rw e b
    | inl (view, e) ↦ elim (Result-cases (chain.owner_of id)) [
      | inr (x, f) ↦ rw (e, f) b
      | inl (owner, f) ↦ elim (Result-cases chain.chain_time) [
        | inr (x, g) ↦ rw (e, f, g) b
        | inl (now, g) ↦
            elim (Option-cases (stub_predicate view owner requester now (booked_ids s.sessions))) [
              | inr (code, h) ↦ rw (e, f, g, h) b
              | inl h ↦
                  let sid = codes "sess-" ++ decimal s.session_seq in
                  let next : StubController MockNet = record s {
                    session_seq = s.session_seq + 1;
                  } in
                  let b' =
                    IsBacked-count tokens s s.open_nonces s.nonce_seq (s.session_seq + 1) b in
                  elim (Result-cases (resolve view.resource_id)) [
                    | inr (x, i) ↦ rw (e, f, g, h, i) b'
                    | inl (resolved, i) ↦ elim (Result-cases (bandwidth_of view.params)) [
                      | inr (x, j) ↦ rw (e, f, g, h, i, j) b'
                      | inl ((capacity_bps, qos_class), j) ↦
                          rw (e, f, g, h, i, j, resolve-ok view.resource_id resolved i)
                            (IsBacked-open tokens next sid id view capacity_bps qos_class b'
                              (reads id view e)
                              (bandwidth_of-ok view.params capacity_bps qos_class j)
                              (ap (λ n. elem n (booked_ids s.sessions))
                                  (sym (chain.get_id id view e))
                                ∙ stub_predicate-unbooked view owner requester now
                                    (booked_ids s.sessions) h))
                    ]
                  ]
            ]
      ]
    ]
  ]

  pub activate-IsBacked :
      (nonce : Text) (s : StubController MockNet)
      → IsBacked tokens s
      → IsBacked tokens (activate mock chain id requester nonce s).1
  unfolding activate
  activate-IsBacked nonce s b = elim (Bool-cases (elem nonce s.open_nonces)) [
    | inr unissued ↦ rw unissued b
    | inl issued ↦
        let burnt : StubController MockNet = record s {
          open_nonces = discard nonce s.open_nonces;
        } in
        rw issued (
          admit-IsBacked burnt
            (IsBacked-count tokens s burnt.open_nonces s.nonce_seq s.session_seq b))
  ]
