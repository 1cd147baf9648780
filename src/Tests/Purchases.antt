-- ===== src/Tests/Purchases.antt =====
-- Instances of the theorems on the chain, and the canonical purchase of ticket #7.
use a2a_tokenized_provisioni.Base.{ℕ, ◌≡◌, refl, ◌⊎◌, [], ◌∷◌, text_beq}
use a2a_tokenized_provisioni.Base.Hex.{hex_from}
use a2a_tokenized_provisioni.Exec.{Exception, Result, ok, raised}
use a2a_tokenized_provisioni.Dict
use a2a_tokenized_provisioni.Interfaces.Fixtures.{
  ada, bell, canonical_signed_offer, canonical_entitlement_view,
}
use a2a_tokenized_provisioni.Skeleton.Chain.{
  FakeChain, fulfill, refusal, balance, bound_elsewhere, decode_bandwidth_params, int_16,
  valid_bandwidth, from_hex, get_entitlement, found, advance, revoke,
}
use a2a_tokenized_provisioni.Skeleton.Chain.Rules.{Usable, Paid, Tokened, fulfill_lem}
use a2a_tokenized_provisioni.Skeleton.Chain.History.{
  genesis, genesis-IsSound, Run, start, then_, by_fulfill, by_revoke, by_advance, Extends,
  Run-Extends,
}
use a2a_tokenized_provisioni.Skeleton.Chain.Uses.{fulfill-single_use}

-- Ada has 25 of the token, Bell none, and the next ticket is #7
abbrev before : FakeChain
before = genesis 1757944800 7 ((ada, 25000000000000000000) ∷ [])

abbrev sold : Result ℕ × FakeChain
sold = fulfill canonical_signed_offer ada before

sold-ok : sold.0 ≡ ok 7
unfolding fulfill refusal balance bound_elsewhere decode_bandwidth_params int_16 valid_bandwidth
    Dict.get text_beq hex_from
sold-ok = refl

sold-view : get_entitlement sold.1 7 ≡ ok canonical_entitlement_view
unfolding fulfill refusal balance bound_elsewhere decode_bandwidth_params int_16 valid_bandwidth
    Dict.get Dict.put text_beq from_hex get_entitlement found hex_from
sold-view = refl

fulfill_lem_example :
    (¬ Usable canonical_signed_offer ada before
      × (x : Exception) × (fulfill canonical_signed_offer ada before ≡ (raised x, before)))
    ⊎ (Usable canonical_signed_offer ada before
        × Paid canonical_signed_offer ada before (fulfill canonical_signed_offer ada before).1
        × Tokened canonical_signed_offer 7 (fulfill canonical_signed_offer ada before) before)
fulfill_lem_example = fulfill_lem canonical_signed_offer ada before

-- an hour after the sale the ticket is revoked
abbrev hour_later : FakeChain
hour_later = (advance 3600 sold.1).1

abbrev revoked : FakeChain
revoked = (revoke 7 hour_later).1

afterwards : Run sold.1 revoked
afterwards = then_ (then_ start (by_advance 3600)) (by_revoke 7)

whole : Run before revoked
whole =
    then_ (then_ (then_ start (by_fulfill canonical_signed_offer ada)) (by_advance 3600))
      (by_revoke 7)

Run-Extends_example : Extends before revoked
Run-Extends_example =
    Run-Extends whole (genesis-IsSound 1757944800 7 ((ada, 25000000000000000000) ∷ []))

fulfill-single_use_example :
    (x : Exception) × (fulfill canonical_signed_offer bell revoked ≡ (raised x, revoked))
fulfill-single_use_example =
    fulfill-single_use canonical_signed_offer canonical_signed_offer ada bell 7 before revoked
      (genesis-IsSound 1757944800 7 ((ada, 25000000000000000000) ∷ [])) sold-ok afterwards refl
