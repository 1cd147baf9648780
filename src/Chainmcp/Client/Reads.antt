-- ===== src/Chainmcp/Client/Reads.antt =====
-- client.py: what the reads report of the contract, and the reader that the controller is given.
use a2a_tokenized_provisioni.Base.{
  ℕ, ◌≡◌, refl, ap, sym, arith, nat_eq, text_eq, text_beq, inl, inr,
}
use a2a_tokenized_provisioni.Base.Decimal.{Text}
use a2a_tokenized_provisioni.Exec.{Exception, Result, ok, raised, denied, key_error, Result-cases}
use a2a_tokenized_provisioni.Interfaces.{Params, EntitlementView, e_unknown_entitlement}
use a2a_tokenized_provisioni.Interfaces.Ports.{EntitlementReader}
use a2a_tokenized_provisioni.Controller.Service.{view_of, known_id}
use a2a_tokenized_provisioni.Chainmcp.Client.{
  Call, returns, reverts, fails, Entry, Views, nonexistent, owner_result, plain_result, owner_of,
  decode_params, view_of_entry, get, chain_time,
}

raised_ok : {A : Type 0} {x : Exception} {a : A} → ¬ (◌≡◌ {A = Result A} (raised x) (ok a))
raised_ok e = ground (arith, e)

ok_injective : {A : Type 0} {a b : A} → ◌≡◌ {A = Result A} (ok a) (ok b) → a ≡ b
ok_injective e = cc

module _ (views : Views) where
  -- What a view that `get` returned says of the contract.
  pub record Faithful (id : ℕ) (view : EntitlementView) : Type 0 where
    pub owner : Text
    pub entry : Entry
    pub params : Params
    pub owned : views.call_owner_of id ≡ returns owner
    pub stored : views.call_entitlements id ≡ returns entry
    pub decoded : decode_params views entry.service_type entry.params_blob ≡ ok params
    pub shown : view ≡ view_of_entry views id entry params

  owner_result-ok :
      (call : Call Text) (owner : Text) → owner_result call ≡ ok owner → call ≡ returns owner
  unfolding owner_result
  owner_result-ok (returns a) owner h = cc
  owner_result-ok (reverts name) owner h = absurd (ground (arith, h))
  owner_result-ok fails owner h = absurd (cc)

  plain_result-ok :
      {A : Type 0} (call : Call A) (a : A) → plain_result call ≡ ok a → call ≡ returns a
  unfolding plain_result
  plain_result-ok (returns b) a h = cc
  plain_result-ok (reverts name) a h = absurd (cc)
  plain_result-ok fails a h = absurd (cc)

  -- A view that `get` returns is of the id that was asked, of a token that has an owner, with the
  -- fields that the contract stores under that id and the params that its blob decodes to.
  pub get-Faithful : (id : ℕ) (view : EntitlementView) → get views id ≡ ok view → Faithful id view
  unfolding get owner_of
  get-Faithful id view h = elim (Result-cases (owner_result (views.call_owner_of id))) [
    | inr (x, p) ↦ absurd (raised_ok (rw p at h))
    | inl (owner, p) ↦ elim (Result-cases (plain_result (views.call_entitlements id))) [
      | inr (x, q) ↦ absurd (raised_ok (rw (p, q) at h))
      | inl (entry, q) ↦
          elim (Result-cases (decode_params views entry.service_type entry.params_blob)) [
            | inr (x, r) ↦ absurd (raised_ok (rw (p, q, r) at h))
            | inl (params, r) ↦ record {
              owner = owner;
              entry = entry;
              params = params;
              owned = owner_result-ok (views.call_owner_of id) owner p;
              stored = plain_result-ok (views.call_entitlements id) entry q;
              decoded = r;
              shown = ok_injective (sym (rw (p, q, r) at h));
            }
          ]
    ]
  ]

  -- the client as the controller's port
  abbrev pub reader : EntitlementReader
  reader = record {
    owner_of = owner_of views;
    get = get views;
    chain_time = chain_time views;
    get_id = λ i v h. ap (λ (z : EntitlementView). z.id) (get-Faithful i v h).shown;
  }

  -- An id whose token does not exist is a KeyError of both reads, and the controller answers it as
  -- an unknown entitlement.
  pub get-unknown :
      (id : ℕ)
      → views.call_owner_of id ≡ reverts nonexistent
      → (get views id ≡ raised key_error)
        × (owner_of views id ≡ raised key_error)
        × (view_of reader id ≡ raised (denied e_unknown_entitlement))
  unfolding get owner_of owner_result text_beq view_of known_id
  get-unknown id h = rw h (refl, refl, refl)
