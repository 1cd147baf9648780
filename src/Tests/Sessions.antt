-- ===== src/Tests/Sessions.antt =====
-- Instances of the theorems on the controller's sessions.
use a2a_tokenized_provisioni.Base.{
  ℕ, ◌<◌, ◌≡◌, refl, ◌≢◌, ◌==◌, leb, some, [], ◌∷◌, ◌↔◌, true, false, text_eq, nat_eq,
}
use a2a_tokenized_provisioni.Base.Decimal.{Text, codes}
use a2a_tokenized_provisioni.Exec.{ok, raised, denied}
use a2a_tokenized_provisioni.Dict
use a2a_tokenized_provisioni.Interfaces.{
  ApplyResult, EntitlementView, SessionInfo, active, failed, e_network,
}
use a2a_tokenized_provisioni.Interfaces.Ports.{NetworkProvisioner, EntitlementReader}
use a2a_tokenized_provisioni.Interfaces.Fixtures.{ada, canonical_entitlement_view, resolved_path}
use a2a_tokenized_provisioni.Controller.Auth.{verify}
use a2a_tokenized_provisioni.Controller.Translators.{apply_bandwidth, dispatch}
use a2a_tokenized_provisioni.Controller.Service.{Session, Service, info, session_id}
use a2a_tokenized_provisioni.Controller.Sessions.{IsSound}
use a2a_tokenized_provisioni.Controller.Activate.{activate, new_session}
use a2a_tokenized_provisioni.Controller.Activate.Outcome.{activate_refused}
use a2a_tokenized_provisioni.Controller.Activate.Accepts.{Opens, activate-ok_iff}
use a2a_tokenized_provisioni.Controller.Teardown.{teardown, tick, handle_revoked}
use a2a_tokenized_provisioni.Controller.Teardown.Sound.{teardown-teardown}
use a2a_tokenized_provisioni.Controller.Teardown.Loops.{
  end_due, due_ids, tick-ends, handle_revoked-ends,
}
use a2a_tokenized_provisioni.Controller.Reach.{Origin, Reach-single, Reach-Origin}
use a2a_tokenized_provisioni.Netctl.Mock
use a2a_tokenized_provisioni.Netctl.Mock.{
  MockNet, mock, no_network, fine, record_applied, teardown-TeardownReturns,
}
use a2a_tokenized_provisioni.Tests.World.{
  chain_at, wiring, nonce, opened, signature, start_time, admitted, activated, activated-Reach,
  activated-IsSound, activated-get, running, translated, recover,
}

Reach-single_example : IsSound activated.sessions activated.seq
Reach-single_example = Reach-single wiring opened refl activated activated-Reach

Reach-Origin_example : Origin wiring opened activated activated-Reach running
Reach-Origin_example =
    Reach-Origin wiring opened refl activated-Reach running.session_id running activated-get refl

-- the service after the activation
abbrev after_opening : Service MockNet
after_opening = record {
  auth = (verify recover 7 nonce signature ada start_time (codes "activate") opened.auth).1;
  sessions = Dict.put [] running.session_id running;
  seq = 1;
  net = (dispatch mock (apply_bandwidth (session_id 7 0) resolved_path 50000000 1) no_network).1;
}

activate-ok_iff_example :
    (activate wiring (chain_at start_time) 7 (codes "bandwidth") nonce signature opened
      ≡ (ok (info running), after_opening))
    ↔ Opens wiring
        (chain_at start_time)
        7
        (codes "bandwidth")
        nonce
        signature
        opened
        (info running)
        after_opening
activate-ok_iff_example =
    activate-ok_iff wiring (chain_at start_time) 7 (codes "bandwidth") nonce signature opened
      (info running) after_opening

opening :
    Opens wiring
      (chain_at start_time)
      7
      (codes "bandwidth")
      nonce
      signature
      opened
      (info running)
      after_opening
unfolding admitted
opening = record {
  view = canonical_entitlement_view;
  now = start_time;
  calls = apply_bandwidth (session_id 7 0) resolved_path 50000000 1 ∷ [];
  net = after_opening.net;
  authorized = admitted mock;
  translated = translated;
  accepted = ((fine, (unfold dispatch record_applied in refl), refl), refl);
  answer = refl;
  after = refl;
}

-- a network that refuses every change
abbrev denial : ApplyResult
denial = record { ok = false; detail = codes "no" }

abbrev refusing : NetworkProvisioner MockNet
refusing = record mock { apply_bandwidth = λ sid path capacity_bps qos_class net. (ok denial, net) }

abbrev refused : Session
refused = new_session 7 0 canonical_entitlement_view start_time failed

activate_refused_example :
    activate
      (record wiring { provisioner = refusing })
      (chain_at start_time)
      7
      (codes "bandwidth")
      nonce
      signature
      opened
    ≡ (
      raised (denied e_network),
      record {
        auth = (verify recover 7 nonce signature ada start_time (codes "activate") opened.auth).1;
        sessions = Dict.put [] refused.session_id refused;
        seq = 1;
        net = (refusing.teardown (session_id 7 0) no_network).1;
      },
    )
unfolding dispatch Mock.teardown admitted
activate_refused_example =
    activate_refused (record wiring { provisioner = refusing }) (chain_at start_time) 7
      (codes "bandwidth") nonce signature opened canonical_entitlement_view start_time
      (admitted refusing) (apply_bandwidth (session_id 7 0) resolved_path 50000000 1) denial
      translated refl fine refl refl

tick-ends_example :
    let (r, t) = tick wiring (chain_at 1757952000) activated in
    let over = λ (x : Session). leb x.expires_at 1757952000 in
    (r ≡ ok (due_ids over activated.sessions))
    × (t.sessions ≡ end_due over activated.sessions)
    × ((k : Text) (x : Session)
        → Dict.get t.sessions k ≡ some x
        → x.state ≡ active
        → 1757952000 < x.expires_at)
tick-ends_example =
    tick-ends wiring (chain_at 1757952000) teardown-TeardownReturns 1757952000 refl activated
      activated-IsSound

-- the chain after the revocation of #7
abbrev revoked_view : EntitlementView
revoked_view = record canonical_entitlement_view { revoked = true }

revoked_id : (i : ℕ) (v : EntitlementView) → ok (record revoked_view { id = i }) ≡ ok v → v.id ≡ i
revoked_id i v h = cc

abbrev revoked_chain : EntitlementReader
revoked_chain = record {
  owner_of = λ id. ok ada;
  get = λ id. ok (record revoked_view { id = id });
  chain_time = ok start_time;
  get_id = revoked_id;
}

handle_revoked-ends_example :
    let (r, t) = handle_revoked wiring revoked_chain 7 activated in
    let own = λ (x : Session). x.entitlement_id == 7 in
    (r ≡ ok tt)
    × (revoked_view.revoked ≡ true
        → (t.sessions ≡ end_due own activated.sessions)
          × ((k : Text) (x : Session)
              → Dict.get t.sessions k ≡ some x
              → x.state ≡ active
              → x.entitlement_id ≢ 7))
    × (revoked_view.revoked ≡ false → t ≡ activated)
handle_revoked-ends_example =
    handle_revoked-ends wiring revoked_chain teardown-TeardownReturns 7 revoked_view refl activated
      activated-IsSound

teardown-teardown_example :
    let (r, t) = teardown wiring running.session_id activated in
    let (r', t') = teardown wiring running.session_id t in
    ((i : SessionInfo) × (r ≡ ok i) × (i.state ≢ active)) × (r' ≡ r) × (t'.sessions ≡ t.sessions)
teardown-teardown_example =
    teardown-teardown wiring teardown-TeardownReturns running.session_id activated activated-IsSound
