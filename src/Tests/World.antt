-- ===== src/Tests/World.antt =====
-- One controller over the mock network, with ticket #7 on the chain.
use a2a_tokenized_provisioni.Base.{
  ℕ, ◌≡◌, refl, ap, ◌∙◌, some, [], ◌∷◌, ◌++◌, ◌==◌, if◌then◌else◌, arith, nat_eq, nat_beq_iff,
  text_eq, text_beq, beq_refl,
}
use a2a_tokenized_provisioni.Base.Decimal.{Text, codes}
use a2a_tokenized_provisioni.Exec.{Result, ok, raised, key_error}
use a2a_tokenized_provisioni.Dict
use a2a_tokenized_provisioni.Dict.{get-put_self}
use a2a_tokenized_provisioni.Interfaces.{EntitlementView, SessionInfo, active}
use a2a_tokenized_provisioni.Interfaces.Ports.{EntitlementReader, NetworkProvisioner}
use a2a_tokenized_provisioni.Interfaces.Fixtures.{
  ada, canonical_entitlement_view, resource_bytes, resolved_path,
}
use a2a_tokenized_provisioni.Controller.Domain.{grants}
use a2a_tokenized_provisioni.Controller.Auth.{Recover, proof_message}
use a2a_tokenized_provisioni.Controller.Translators.{apply_bandwidth, translate, dispatch}
use a2a_tokenized_provisioni.Controller.Service.{Session, Service, Wiring, active_ids, session_id}
use a2a_tokenized_provisioni.Controller.Sessions.{IsSound}
use a2a_tokenized_provisioni.Controller.Activate.{activate, new_session}
use a2a_tokenized_provisioni.Controller.Activate.Sound.{Authorized}
use a2a_tokenized_provisioni.Controller.Activate.Outcome.{activate_returns}
use a2a_tokenized_provisioni.Controller.Reach.{Reach, here, next, activates, Reach-single}
use a2a_tokenized_provisioni.Netctl.Mock.{MockNet, mock, no_network, fine, record_applied}

abbrev pub ticket : ℕ → Result EntitlementView
ticket id = if id == 7 then ok canonical_entitlement_view else raised key_error

pub ticket-id : (i : ℕ) (v : EntitlementView) → ticket i ≡ ok v → v.id ≡ i
ticket-id i v h = ground (arith, h, nat_beq_iff i 7)

-- the chain at a time
abbrev pub chain_at : ℕ → EntitlementReader
chain_at now = record {
  owner_of = λ id. if id == 7 then ok ada else raised key_error;
  get = ticket;
  chain_time = ok now;
  get_id = ticket-id;
}

-- A toy signature is the signer's address before the message, and only Ada signs.
abbrev pub recover : Recover
recover message signature = if signature == ada ++ message then ok ada else ok (codes "0x")

abbrev pub wiring : Wiring MockNet
wiring = record {
  provisioner = mock;
  recover = recover;
  resource_map = (resource_bytes 7, resolved_path) ∷ [];
}

abbrev pub nonce : Text
nonce = codes "0x00"

-- a controller that has issued one challenge for #7
abbrev pub opened : Service MockNet
opened = record {
  auth = record { controller_id = codes "bell"; open_nonces = (nonce, (7, 1757944900)) ∷ [] };
  sessions = [];
  seq = 0;
  net = no_network;
}

abbrev pub signature : Text
signature = ada ++ proof_message (codes "bell") nonce 7 1757944900 (codes "activate")

abbrev pub start_time : ℕ
start_time = 1757944800

pub signed :
    recover (proof_message (codes "bell") nonce 7 1757944900 (codes "activate")) signature ≡ ok ada
signed =
    rw (beq_refl (ada ++ proof_message (codes "bell") nonce 7 1757944900 (codes "activate"))) refl

unfoldable pub admitted :
    (net : NetworkProvisioner MockNet)
    → Authorized
        (record wiring { provisioner = net })
        (chain_at start_time)
        7
        (codes "bandwidth")
        nonce
        signature
        opened
        canonical_entitlement_view
        start_time
unfolding Dict.get active_ids grants text_beq
admitted net = record {
  owner = ada;
  viewed = refl;
  owned = refl;
  timed = refl;
  proven = record {
    expires_at = 1757944900;
    is_open = refl;
    in_time = omega arith;
    signed = signed;
  };
  permitted = record {
    by_owner = refl;
    started = omega arith;
    unexpired = omega arith;
    unrevoked = refl;
    translatable = refl;
    granted = refl;
    unbooked = refl;
  };
}

-- the controller after Ada's activation
abbrev pub activated : Service MockNet
activated = (activate wiring (chain_at start_time) 7 (codes "bandwidth") nonce signature opened).1

pub activated-Reach : Reach wiring opened activated
activated-Reach =
    next here (activates (chain_at start_time) 7 (codes "bandwidth") nonce signature opened)

pub activated-IsSound : IsSound activated.sessions activated.seq
activated-IsSound = Reach-single wiring opened refl activated activated-Reach

abbrev pub running : Session
running = new_session 7 0 canonical_entitlement_view start_time active

pub translated :
    translate (session_id 7 0) canonical_entitlement_view wiring.resource_map
    ≡ ok (apply_bandwidth (session_id 7 0) resolved_path 50000000 1 ∷ [])
unfolding translate Dict.get text_beq
translated = refl

pub activated-get : Dict.get activated.sessions running.session_id ≡ some running
activated-get =
    ap (λ (p : Result SessionInfo × Service MockNet). Dict.get p.1.sessions running.session_id)
      (activate_returns wiring (chain_at start_time) 7 (codes "bandwidth") nonce signature opened
        canonical_entitlement_view start_time (admitted mock)
        (apply_bandwidth (session_id 7 0) resolved_path 50000000 1) fine translated
        (unfold dispatch record_applied in refl) refl)
    ∙ get-put_self [] running.session_id running
