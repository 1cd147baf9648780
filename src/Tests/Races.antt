-- ===== src/Tests/Races.antt =====
-- An instance of the theorem on overlapping activations: two challenges are open for ticket #7.
use a2a_tokenized_provisioni.Base.{
  ◌≡◌, refl, ◌≢◌, some, true, text_beq_iff, [], ◌∷◌, arith, nat_eq, text_eq, text_beq,
}
use a2a_tokenized_provisioni.Base.Decimal.{Text, codes}
use a2a_tokenized_provisioni.Exec.{ok}
use a2a_tokenized_provisioni.Dict
use a2a_tokenized_provisioni.Interfaces.Fixtures.{ada, canonical_entitlement_view, resolved_path}
use a2a_tokenized_provisioni.Controller.Domain.{grants}
use a2a_tokenized_provisioni.Controller.Translators.{apply_bandwidth, translate, dispatch}
use a2a_tokenized_provisioni.Controller.Service.{Service, Wiring, active_ids, session_id, info}
use a2a_tokenized_provisioni.Controller.Sessions.{IsSound}
use a2a_tokenized_provisioni.Controller.Activate.Sound.{Authorized}
use a2a_tokenized_provisioni.Controller.Overlap.{
  Submission, overlapped, opened_as, overlapped-double,
}
use a2a_tokenized_provisioni.Netctl.Mock.{MockNet, fine, record_applied}
use a2a_tokenized_provisioni.Tests.World.{chain_at, wiring, opened, start_time, translated}

abbrev pool : Wiring MockNet
pool = record wiring { recover = λ message signature. ok ada }

abbrev waiting : Service MockNet
waiting = record opened {
  auth = record {
    controller_id = codes "bell";
    open_nonces = (codes "0x00", (7, 1757944900)) ∷ (codes "0x01", (7, 1757944900)) ∷ [];
  };
}

abbrev sent : (nonce : Text) → Submission
sent nonce = record { kind = codes "bandwidth"; nonce = nonce; signature = codes "0x" }

abbrev May : (nonce : Text) → Type 0
May nonce =
    Authorized pool (chain_at start_time) 7 (codes "bandwidth") nonce (codes "0x") waiting
      canonical_entitlement_view start_time

first_passes : May (codes "0x00")
unfolding Dict.get active_ids grants text_beq
first_passes = record {
  owner = ada;
  viewed = refl;
  owned = refl;
  timed = refl;
  proven = record { expires_at = 1757944900; is_open = refl; in_time = omega arith; signed = refl };
  permitted = record {
    by_owner = refl;
    started = omega arith;
    unexpired = omega arith;
    unrevoked = refl;
    translatable = refl;
    granted = refl;
    unbooked = refl;
  };
}

second_passes : May (codes "0x01")
unfolding Dict.get active_ids grants text_beq
second_passes = record {
  owner = ada;
  viewed = refl;
  owned = refl;
  timed = refl;
  proven = record { expires_at = 1757944900; is_open = refl; in_time = omega arith; signed = refl };
  permitted = record {
    by_owner = refl;
    started = omega arith;
    unexpired = omega arith;
    unrevoked = refl;
    translatable = refl;
    granted = refl;
    unbooked = refl;
  };
}

translated_next :
    translate (session_id 7 1) canonical_entitlement_view pool.resource_map
    ≡ ok (apply_bandwidth (session_id 7 1) resolved_path 50000000 1 ∷ [])
unfolding translate Dict.get text_beq
translated_next = refl

two_nonces : codes "0x00" ≢ codes "0x01"
unfolding text_beq
two_nonces e =
    let h : text_beq (codes "0x00") (codes "0x01") ≡ true =
      (text_beq_iff (codes "0x00") (codes "0x01")).1 e in
    absurd (cc h)

overlapped-double_example :
    let session1 = opened_as 7 canonical_entitlement_view start_time 0 in
    let session2 = opened_as 7 canonical_entitlement_view start_time 1 in
    let (x, y, t) =
      overlapped pool (chain_at start_time) 7 (sent (codes "0x00")) (sent (codes "0x01")) waiting in
    (x ≡ ok (info session1))
    × (y ≡ ok (info session2))
    × (Dict.get t.sessions session1.session_id ≡ some session1)
    × (Dict.get t.sessions session2.session_id ≡ some session2)
    × (session1.session_id ≢ session2.session_id)
    × ¬ IsSound t.sessions t.seq
overlapped-double_example =
    overlapped-double pool (chain_at start_time) 7 (sent (codes "0x00")) (sent (codes "0x01"))
      waiting canonical_entitlement_view start_time first_passes second_passes two_nonces
      (apply_bandwidth (session_id 7 0) resolved_path 50000000 1)
      (apply_bandwidth (session_id 7 1) resolved_path 50000000 1) fine fine translated
      (unfold dispatch record_applied in refl) refl translated_next
      (unfold dispatch record_applied in refl) refl
