-- ===== src/Controller/Auth/Nonces.antt =====
-- auth.py: when a proof is accepted, and the life of a nonce.
use a2a_tokenized_provisioni.Base.{
  ℕ, ◌+◌, ◌≤◌, ◌≡◌, refl, ◌↔◌, Option, none, some, ◌++◌, arith, text_eq, nat_eq, ◌==◌, text_beq_iff,
  nat_beq_iff, inl, inr, leb, if◌then◌else◌,
}
use a2a_tokenized_provisioni.Base.Decimal.{Text, codes}
use a2a_tokenized_provisioni.Exec.{ok, Result-cases}
use a2a_tokenized_provisioni.Dict
use a2a_tokenized_provisioni.Dict.{get-put_self, get-remove_self, get-remove}
use a2a_tokenized_provisioni.Interfaces.{e_nonce_reused, e_bad_proof}
use a2a_tokenized_provisioni.Controller.Auth.{
  Recover, nonce_ttl_s, proof_message, AuthStore, issue, judge, verify,
}

module _ (recover : Recover) (entitlement_id : ℕ) (nonce signature owner : Text) (now : ℕ)
    (action : Text) (store : AuthStore) where
  -- The nonce is open for this entitlement, in time, and the owner signed this very message.
  pub record Proven : Type 0 where
    pub expires_at : ℕ
    pub is_open : Dict.get store.open_nonces nonce ≡ some (entitlement_id, expires_at)
    pub in_time : now ≤ expires_at
    pub signed :
        recover (proof_message store.controller_id nonce entitlement_id expires_at action) signature
        ≡ ok owner

  judge-none :
      (issued : Option (ℕ × ℕ))
      → judge recover store.controller_id issued entitlement_id nonce signature owner now action
        ≡ none
      → issued ≡ Dict.get store.open_nonces nonce
      → Proven
  unfolding judge
  judge-none none h e = cc
  judge-none (some (issued_for, expires_at)) h e = elim (Result-cases (recover message signature)) [
    | inl (signer, r) ↦ record {
      expires_at = expires_at;
      is_open = ground (arith, r, nat_beq_iff issued_for entitlement_id);
      in_time = ground (arith, r);
      signed = ground (arith, r, text_beq_iff signer owner);
    }
    | inr (x, r) ↦ absurd (ground (arith, r))
  ]
    where
      message : Text
      message = proof_message store.controller_id nonce entitlement_id expires_at action

  Proven-verify :
      (verify recover entitlement_id nonce signature owner now action store).0 ≡ none → Proven
  unfolding verify
  Proven-verify h = judge-none (Dict.get store.open_nonces nonce) h refl

  verify-Proven :
      Proven → (verify recover entitlement_id nonce signature owner now action store).0 ≡ none
  unfolding verify
  verify-Proven p = rw (p.is_open, judge) (ground (arith, p.signed, text_beq_iff owner owner))

  -- A proof is accepted exactly when its nonce is open for the entitlement and in time, and the
  -- recovered signer of the message with this action is the owner.
  pub verify-none_iff :
      ((verify recover entitlement_id nonce signature owner now action store).0 ≡ none) ↔ Proven
  verify-none_iff = (Proven-verify, verify-Proven)

  -- A nonce is spent by any verification, passed or failed: every later one with it is refused,
  -- and no other nonce is touched.
  pub verify-verify :
      (id' : ℕ) (signature' owner' : Text) (now' : ℕ) (action' : Text)
      → let spent = (verify recover entitlement_id nonce signature owner now action store).1 in
        ((verify recover id' nonce signature' owner' now' action' spent).0 ≡ some e_nonce_reused)
        × ((other : Text)
            → Dict.get spent.open_nonces other
              ≡ (if nonce == other then none else Dict.get store.open_nonces other))
  unfolding verify
  verify-verify id' signature' owner' now' action' = (
    rw (get-remove_self store.open_nonces nonce, judge),
    λ other. get-remove store.open_nonces nonce other,
  )

module _ (recover : Recover) (token signature owner : Text) (id now later : ℕ)
    (store : AuthStore) where
  -- A challenge answered by its owner's signature is accepted for 300 seconds, bounds included,
  -- and refused as a bad proof after that.
  pub verify-issue :
      recover
          (proof_message store.controller_id
            (codes "0x" ++ token)
            id
            (now + nonce_ttl_s)
            (codes "activate"))
          signature
        ≡ ok owner
      → let (challenge, opened) = issue token id now store in
        (verify recover id challenge.nonce signature owner later (codes "activate") opened).0
        ≡ (if leb later (now + nonce_ttl_s) then none else some e_bad_proof)
  unfolding verify issue
  verify-issue signed =
      rw (get-put_self store.open_nonces (codes "0x" ++ token) (id, now + nonce_ttl_s))
        (unfold judge in ground (arith, signed, text_beq_iff owner owner, nat_beq_iff id id))
