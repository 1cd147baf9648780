-- ===== src/Tests/Plays.antt =====
-- The script of e2e/tests/test_lifecycle.py in the mock world, run and as an instance of the
-- theorems on all scripts.
use a2a_tokenized_provisioni.Base.{
  ◌≡◌, ◌≤◌, ◌≢◌, ◌↔◌, refl, none, some, true, List, [], ◌∷◌, text_eq, nat_eq, text_beq,
}
use a2a_tokenized_provisioni.Base.Decimal.{Text, codes, decimal}
use a2a_tokenized_provisioni.Exec.{ok}
use a2a_tokenized_provisioni.Dict
use a2a_tokenized_provisioni.Interfaces.{EntitlementView, active, torn_down}
use a2a_tokenized_provisioni.Interfaces.Fixtures.{
  ada, bell, canonical_signed_offer, canonical_entitlement_view,
}
use a2a_tokenized_provisioni.Base.Hex.{hex_from, hex_digit}
use a2a_tokenized_provisioni.Controller.Domain.{predicate}
use a2a_tokenized_provisioni.Netctl.Mock
use a2a_tokenized_provisioni.Netctl.Mock.{record_applied}
use a2a_tokenized_provisioni.Skeleton.Chain
use a2a_tokenized_provisioni.Skeleton.Chain.{get_entitlement}
use a2a_tokenized_provisioni.Skeleton.Stub
use a2a_tokenized_provisioni.Skeleton.Stub.{StubSession}
use a2a_tokenized_provisioni.Skeleton.World
use a2a_tokenized_provisioni.Skeleton.World.{
  Line, buys, asks, activates, waits, ticks, new_world, perform, tick, revoke, provisioned,
  state_of, is_torn_down, balance_of,
}
use a2a_tokenized_provisioni.Skeleton.World.Mirrors.{Mirrors, perform-Mirrors}
use a2a_tokenized_provisioni.Skeleton.World.Ticks.{Continues, tick-perform}
use a2a_tokenized_provisioni.Skeleton.World.Revokes.{revoke-perform}

-- Ada buys, and activates within the window.
abbrev bought : List Line
bought =
    buys canonical_signed_offer ada ∷ asks 7 ∷ waits 1800 ∷ activates 7 ada (codes "nonce-0") ∷ []

-- The end of the window comes, and the controller looks at the clock.
abbrev finished : List Line
finished =
    buys canonical_signed_offer ada
    ∷ asks 7
    ∷ waits 1800
    ∷ activates 7 ada (codes "nonce-0")
    ∷ waits 7080
    ∷ ticks
    ∷ []

bought-provisioned :
    let w = perform bought new_world in
    (provisioned (codes "sess-0") w ≡ ok (some (50000000, 1)))
    × (state_of (codes "sess-0") w ≡ ok active)
    × (balance_of bell w ≡ 10000000000000000000)
unfolding perform World.play World.fulfill World.challenge World.activate World.tick
    World.advance_time provisioned state_of is_torn_down balance_of World.terms_of World.absent
    Chain.fulfill Chain.refusal Chain.balance Chain.pay Chain.bound_elsewhere
    Chain.decode_bandwidth_params Chain.int_16 Chain.valid_bandwidth Chain.from_hex
    Chain.get_entitlement Chain.owner_of Chain.found Chain.advance Stub.challenge Stub.activate
    Stub.admit Stub.stub_predicate Stub.resolve Stub.bandwidth_of Stub.discard Stub.booked_ids
    Stub.state_of Stub.found_state Stub.teardown Stub.mark_down Stub.tick Stub.sweep Stub.visit
    predicate record_applied Mock.teardown Dict.get Dict.put Dict.remove Dict.keys text_beq hex_from
    hex_digit decimal
bought-provisioned = (refl, refl, refl)

finished-torn_down :
    let w = perform finished new_world in
    (provisioned (codes "sess-0") w ≡ ok none)
    × (state_of (codes "sess-0") w ≡ ok torn_down)
    × (is_torn_down (codes "sess-0") w ≡ true)
unfolding perform World.play World.fulfill World.challenge World.activate World.tick
    World.advance_time provisioned state_of is_torn_down balance_of World.terms_of World.absent
    Chain.fulfill Chain.refusal Chain.balance Chain.pay Chain.bound_elsewhere
    Chain.decode_bandwidth_params Chain.int_16 Chain.valid_bandwidth Chain.from_hex
    Chain.get_entitlement Chain.owner_of Chain.found Chain.advance Stub.challenge Stub.activate
    Stub.admit Stub.stub_predicate Stub.resolve Stub.bandwidth_of Stub.discard Stub.booked_ids
    Stub.state_of Stub.found_state Stub.teardown Stub.mark_down Stub.tick Stub.sweep Stub.visit
    predicate record_applied Mock.teardown Dict.get Dict.put Dict.remove Dict.keys text_beq hex_from
    hex_digit decimal
finished-torn_down = (refl, refl, refl)

perform-Mirrors_example : Mirrors (perform finished new_world)
perform-Mirrors_example = perform-Mirrors finished

tick-perform_example :
    let w = perform bought new_world in
    let (r, t) = tick w in
    (r ≡ ok tt)
    × ((sid : Text) (x : StubSession)
        → x.state ≡ active
        → (Dict.get t.controller.sessions sid ≡ some x)
          ↔ ((Dict.get w.controller.sessions sid ≡ some x) × Continues w x))
    × ((sid : Text) (x : StubSession) (v : EntitlementView)
        → Dict.get w.controller.sessions sid ≡ some x
        → get_entitlement w.chain x.entitlement_id ≡ ok v
        → v.end_time ≤ w.chain.now
        → provisioned sid t ≡ ok none)
tick-perform_example = tick-perform bought

bought-token : get_entitlement (perform bought new_world).chain 7 ≡ ok canonical_entitlement_view
unfolding perform World.play World.fulfill World.challenge World.activate World.tick
    World.advance_time provisioned state_of is_torn_down balance_of World.terms_of World.absent
    Chain.fulfill Chain.refusal Chain.balance Chain.pay Chain.bound_elsewhere
    Chain.decode_bandwidth_params Chain.int_16 Chain.valid_bandwidth Chain.from_hex
    Chain.get_entitlement Chain.owner_of Chain.found Chain.advance Stub.challenge Stub.activate
    Stub.admit Stub.stub_predicate Stub.resolve Stub.bandwidth_of Stub.discard Stub.booked_ids
    Stub.state_of Stub.found_state Stub.teardown Stub.mark_down Stub.tick Stub.sweep Stub.visit
    predicate record_applied Mock.teardown Dict.get Dict.put Dict.remove Dict.keys text_beq hex_from
    hex_digit decimal
bought-token = refl

revoke-perform_example :
    let w = perform bought new_world in
    let (r, t) = revoke 7 w in
    (r ≡ ok tt)
    × (get_entitlement t.chain 7 ≡ ok (record canonical_entitlement_view { revoked = true }))
    × ((sid : Text) (x : StubSession)
        → x.state ≡ active
        → (Dict.get t.controller.sessions sid ≡ some x)
          ↔ ((Dict.get w.controller.sessions sid ≡ some x) × (x.entitlement_id ≢ 7)))
revoke-perform_example = revoke-perform bought 7 canonical_entitlement_view bought-token
