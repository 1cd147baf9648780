-- ===== src/Agents/Tools/Selling/Asked.antt =====
-- From the request to the router: mcp_tools.py, the skeleton's settlement (fakes.py) and
-- translators.py, for bandwidth.
use a2a_tokenized_provisioni.Base.{
  ℕ, ◌^◌, ◌<◌, ◌≡◌, refl, sym, ap, subst, ◌∙◌, some, [], ◌∷◌, ◌++◌, inl, inr, Bool-cases, drop,
  text_eq,
}
use a2a_tokenized_provisioni.Base.Int.{pos}
use a2a_tokenized_provisioni.Base.Decimal.{Text, codes}
use a2a_tokenized_provisioni.Exec.{ok, raised-ne-ok}
use a2a_tokenized_provisioni.Dict
use a2a_tokenized_provisioni.Dict.{Dict}
use a2a_tokenized_provisioni.Interfaces.{
  Bytes, TimeWindow, ServiceNeed, bandwidth_need, bandwidth_params, Params, Offer, SignedOffer,
  EntitlementView, Resolved,
}
use a2a_tokenized_provisioni.Interfaces.Fixtures.{resource_id}
use a2a_tokenized_provisioni.Interfaces.Patterns.{valid_offer, is_signature}
use a2a_tokenized_provisioni.Controller.Translators.{apply_bandwidth, translate}
use a2a_tokenized_provisioni.Skeleton.Chain.{
  FakeChain, decode_bandwidth_params, from_hex, minted, fulfill, get_entitlement,
}
use a2a_tokenized_provisioni.Skeleton.Chain.Rules.{fulfill_lem}
use a2a_tokenized_provisioni.Agents.Catalogue.{AbiEncode}
use a2a_tokenized_provisioni.Agents.Catalogue.Params.{decode_bandwidth_params-encode_params}
use a2a_tokenized_provisioni.Agents.Tools.Selling.{offer_for, signed_by, sign_offer}

ok-offer : {s t : SignedOffer} → ok s ≡ ok t → s.offer ≡ t.offer
ok-offer h = cc

ok-params : {p q : Params} → ok p ≡ ok q → p ≡ q
ok-params h = cc

ok-number : {n m : ℕ} → ok n ≡ ok m → n ≡ m
ok-number h = cc

-- A bandwidth view on a mapped resource is one call.
translate-bandwidth :
    (sid : Text) (view : EntitlementView) (resource_map : Dict Bytes Resolved) (resolved : Resolved)
    (capacity_bps qos_class : ℕ)
    → Dict.get resource_map view.resource_id ≡ some resolved
    → view.service_type ≡ 0
    → view.params ≡ bandwidth_params capacity_bps qos_class
    → translate sid view resource_map
      ≡ ok (apply_bandwidth sid resolved capacity_bps qos_class ∷ [])
unfolding translate
translate-bandwidth sid view resource_map resolved capacity_bps qos_class h t p =
    rw (translate, h, t, p)

module _ (abi : AbiEncode) (provider : Text) (sign : Offer → Text) (token : Text) (src dst : Text)
    (capacity_bps qos_class : ℕ) (window : TimeWindow) where
  abbrev need : ServiceNeed
  need = bandwidth_need src dst capacity_bps qos_class window

  -- What is signed is the offer at that price.
  offer-sign_offer :
      (n : ℕ) (signed : SignedOffer)
      → sign_offer abi provider sign token need (pos n) ≡ ok signed
      → signed.offer ≡ offer_for abi provider sign token need n
  unfolding sign_offer signed_by
  offer-sign_offer n signed h =
      let o = offer_for abi provider sign token need n in
      elim (Bool-cases (valid_offer o)) [
        | inl fits ↦ elim (Bool-cases (is_signature (codes "0x" ++ sign o))) [
          | inl good ↦ sym (ok-offer (rw (fits, good) at h))
          | inr bad ↦ absurd (raised-ne-ok (rw (fits, bad) at h))
        ]
        | inr off ↦ absurd (raised-ne-ok (rw off at h))
      ]

  -- the view of the token with these terms
  abbrev pub asked_view : (id n : ℕ) → EntitlementView
  asked_view id n =
      minted (offer_for abi provider sign token need n) id (bandwidth_params capacity_bps qos_class)

  translate-asked :
      (id n : ℕ) (sid : Text) (resource_map : Dict Bytes Resolved) (resolved : Resolved)
      → Dict.get resource_map (from_hex (drop 2 resource_id)) ≡ some resolved
      → translate sid (asked_view id n) resource_map
        ≡ ok (apply_bandwidth sid resolved capacity_bps qos_class ∷ [])
  unfolding offer_for
  translate-asked id n sid resource_map resolved h =
      translate-bandwidth sid (asked_view id n) resource_map resolved capacity_bps qos_class h refl
        refl

  decoded :
      (n : ℕ)
      → capacity_bps < 2 ^ 64
      → qos_class < 2 ^ 8
      → decode_bandwidth_params (offer_for abi provider sign token need n).params
        ≡ ok (bandwidth_params capacity_bps qos_class)
  unfolding offer_for
  decoded n = decode_bandwidth_params-encode_params abi src dst capacity_bps qos_class window

  -- The view that a purchase of the signed offer stored.
  asked_view-minted :
      (n : ℕ) (o : Offer) (params : Params) (id : ℕ)
      → capacity_bps < 2 ^ 64
      → qos_class < 2 ^ 8
      → o ≡ offer_for abi provider sign token need n
      → decode_bandwidth_params o.params ≡ ok params
      → minted o id params ≡ asked_view id n
  asked_view-minted n o params id hc hq same p =
      let e : params ≡ bandwidth_params capacity_bps qos_class =
        ok-params
          (sym p ∙ ap (λ (x : Offer). decode_bandwidth_params x.params) same ∙ decoded n hc hq) in
      ap (λ (x : Offer). minted x id params) same
      ∙ ap (minted (offer_for abi provider sign token need n) id) e

  -- What a buyer asked for is what the network is told: an offer that the provider's tool signed
  -- for a bandwidth need, once it is bought, is a token whose view has the need's window, issued
  -- by the provider, and which every session translates to one call, with the need's capacity and
  -- class, on the resource of the catalogue.
  pub fulfill-asked :
      (n : ℕ) (signed : SignedOffer) (buyer : Text) (c : FakeChain) (id : ℕ)
      → capacity_bps < 2 ^ 64
      → qos_class < 2 ^ 8
      → sign_offer abi provider sign token need (pos n) ≡ ok signed
      → (fulfill signed buyer c).0 ≡ ok id
      → (view : EntitlementView) × (get_entitlement (fulfill signed buyer c).1 id ≡ ok view)
        × (view.start_time ≡ window.start)
        × (view.end_time ≡ window.end)
        × (view.issuer ≡ provider)
        × ((sid : Text) (resource_map : Dict Bytes Resolved) (resolved : Resolved)
            → Dict.get resource_map (from_hex (drop 2 resource_id)) ≡ some resolved
            → translate sid view resource_map
              ≡ ok (apply_bandwidth sid resolved capacity_bps qos_class ∷ []))
  unfolding offer_for
  fulfill-asked n signed buyer c id hc hq h bought = elim (fulfill_lem signed buyer c) [
    | inl (_, x, e) ↦ absurd (raised-ne-ok (rw e at bought))
    | inr (_, _, inr (x, _, e, _)) ↦ absurd (raised-ne-ok (rw e at bought))
    | inr (_, _, inl (params, p, e, stands)) ↦ (
      asked_view id n,
      subst (λ j. get_entitlement (fulfill signed buyer c).1 j ≡ ok (asked_view j n))
          (ok-number (sym e ∙ bought))
          (stands
            ∙ ap (λ (v : EntitlementView). ok v)
                (asked_view-minted n signed.offer params c.next_id hc hq
                  (offer-sign_offer n signed h) p)),
      refl,
      refl,
      refl,
      translate-asked id n,
    )
  ]
