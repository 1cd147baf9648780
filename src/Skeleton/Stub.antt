-- ===== src/Skeleton/Stub.antt =====
-- e2e/src/e2e/skeleton/stub_controller.py: `StubController`, a session machine around the real
-- predicate. Its `net` is the state of the network. A loop over the sessions keeps the keys and
-- reads each session when its turn comes.
pub mod Laws
pub mod Backed
pub mod Opens
pub mod Ends
pub mod Sweeps
use a2a_tokenized_provisioni.Base.{
  ℕ, ◌+◌, Bool, true, false, not, Option, none, some, List, [], ◌∷◌, ◌++◌, ◌==◌, ◌&&◌, elem, leb,
  if◌then◌else◌, text_eq, nat_eq,
}
use a2a_tokenized_provisioni.Base.Decimal.{Text, codes, decimal}
use a2a_tokenized_provisioni.Exec.{
  Exec, Result, ok, raised, denied, key_error, attribute_error, pure, raise, lift, gets, modify,
  deny, ◌>>=◌, ◌>>◌,
}
use a2a_tokenized_provisioni.Dict
use a2a_tokenized_provisioni.Dict.{Dict}
use a2a_tokenized_provisioni.Interfaces.{
  Bytes, Params, bandwidth_params, telemetry_params, EntitlementView, Resolved, ApplyResult,
  SessionState, active, torn_down, ErrorCode, e_nonce_reused, e_network,
}
use a2a_tokenized_provisioni.Interfaces.Ports.{EntitlementReader, NetworkProvisioner}
use a2a_tokenized_provisioni.Interfaces.Fixtures.{resource_bytes, resolved_path}
use a2a_tokenized_provisioni.Controller.Domain.{predicate, state_eq}

-- `Session`
pub record StubSession : Type 0 where
  pub session_id : Text
  pub entitlement_id : ℕ
  pub state : SessionState

pub record StubController (N : Type 0) : Type 0 where
  pub sessions : Dict Text StubSession
  pub open_nonces : List Text
  pub nonce_seq : ℕ
  pub session_seq : ℕ
  pub net : N

-- the stub's `predicate`
unfoldable pub stub_predicate :
    EntitlementView → (owner requester : Text) (now : ℕ) (active_ids : List ℕ) → Option ErrorCode
stub_predicate view owner requester now active_ids =
    predicate view owner requester now active_ids none (0 ∷ [])

-- `_resolve`
unfoldable pub resolve : Bytes → Result Resolved
resolve resource_id = elim (Dict.get ((resource_bytes 7, resolved_path) ∷ []) resource_id) [
  | none ↦ raised key_error
  | some resolved ↦ ok resolved
]

-- `view.params.capacity_bps` and `view.params.qos_class`
unfoldable pub bandwidth_of : Params → Result (ℕ × ℕ)
bandwidth_of (bandwidth_params capacity_bps qos_class) = ok (capacity_bps, qos_class)
bandwidth_of (telemetry_params sensor_paths collector_endpoint sample_interval_s) =
    raised attribute_error

-- `set.discard`
unfoldable pub discard : Text → List Text → List Text
discard nonce [] = []
discard nonce (n ∷ nonces) =
    let rest = discard nonce nonces in if n == nonce then rest else n ∷ rest

-- `self._sessions[session_id].state`
unfoldable pub found_state : Option StubSession → Result SessionState
found_state none = raised key_error
found_state (some x) = ok x.state

unfoldable pub state_of : {N : Type 0} → Text → StubController N → Result SessionState
unfolding found_state
state_of sid s = found_state (Dict.get s.sessions sid)

-- the entitlements of the active sessions
unfoldable pub booked_ids : Dict Text StubSession → List ℕ
booked_ids [] = []
booked_ids ((k, x) ∷ rest) =
    let others = booked_ids rest in if x.state == active then x.entitlement_id ∷ others else others

module _ {N : Type 0} where
  abbrev pub on_net : {A : Type 0} → Exec N A → Exec (StubController N) A
  on_net m s = let (r, n) = m s.net in (r, record s { net = n })

  unfoldable pub challenge : (entitlement_id : ℕ) → Exec (StubController N) Text
  challenge entitlement_id s =
      let nonce = codes "nonce-" ++ decimal s.nonce_seq in
      (ok nonce, record s { nonce_seq = s.nonce_seq + 1; open_nonces = nonce ∷ s.open_nonces })

  -- `self._session_seq`, and `self._session_seq += 1`
  abbrev pub next_id : Exec (StubController N) Text
  next_id s =
      (ok (codes "sess-" ++ decimal s.session_seq), record s { session_seq = s.session_seq + 1 })

  abbrev pub burn : Text → Exec (StubController N) (Unit {0})
  burn nonce = modify (λ s. record s { open_nonces = discard nonce s.open_nonces })

  abbrev pub write : Text → StubSession → Exec (StubController N) (Unit {0})
  write sid x = modify (λ s. record s { sessions = Dict.put s.sessions sid x })

module _ {N : Type 0} (net : NetworkProvisioner N) where
  -- `activate` after the nonce was burnt
  unfoldable pub admit :
      EntitlementReader → (entitlement_id : ℕ) (requester : Text) → Exec (StubController N) Text
  admit chain entitlement_id requester = do
    view ← lift (chain.get entitlement_id)
    owner ← lift (chain.owner_of entitlement_id)
    now ← lift chain.chain_time
    ids ← gets (λ s. booked_ids s.sessions)
    deny (stub_predicate view owner requester now ids)
    sid ← next_id
    resolved ← lift (resolve view.resource_id)
    terms ← lift (bandwidth_of view.params)
    result ← on_net (net.apply_bandwidth sid resolved terms.0 terms.1)
    if result.ok
        then (do
          write sid (record { session_id = sid; entitlement_id = entitlement_id; state = active })
          pure sid)
        else raise (denied e_network)

  unfoldable pub activate :
      EntitlementReader
      → (entitlement_id : ℕ) (requester nonce : Text) → Exec (StubController N) Text
  unfolding admit
  activate chain entitlement_id requester nonce s =
      if not (elem nonce s.open_nonces)
      then (raised (denied e_nonce_reused), s)
      else (burn nonce >> admit chain entitlement_id requester) s

  -- the end of `teardown`, by what the dictionary holds
  unfoldable pub mark_down : Text → Option StubSession → Exec (StubController N) (Unit {0})
  mark_down sid none = pure tt
  mark_down sid (some x) =
      if x.state == torn_down then pure tt else write sid (record x { state = torn_down })

  unfoldable pub teardown : Text → Exec (StubController N) (Unit {0})
  unfolding mark_down
  teardown sid = do
    on_net (net.teardown sid)
    found ← gets (λ s. Dict.get s.sessions sid)
    mark_down sid found

  -- The turn of one session in a loop; `due` is the loop's own test, which may raise.
  unfoldable pub visit :
      (StubSession → Result Bool)
      → Option StubSession
      → Exec (StubController N) (Unit {0})
      → Exec (StubController N) (Unit {0})
  visit due none later = later
  visit due (some x) later =
      if x.state == active
      then (do is_due ← lift (due x); if is_due then (teardown x.session_id >> later) else later)
      else later

  unfoldable pub sweep :
      (StubSession → Result Bool) → List Text → Exec (StubController N) (Unit {0})
  unfolding visit
  sweep due [] = pure tt
  sweep due (key ∷ keys) =
      let later = sweep due keys in
      do found ← gets (λ s. Dict.get s.sessions key); visit due found later

  -- `now >= self._chain.get(session.entitlement_id).end_time`
  abbrev pub is_over : (now : ℕ) → Result EntitlementView → Result Bool
  is_over now (ok view) = ok (leb view.end_time now)
  is_over now (raised x) = raised x

  unfoldable pub tick : EntitlementReader → Exec (StubController N) (Unit {0})
  tick chain = do
    now ← lift chain.chain_time
    keys ← gets (λ s. Dict.keys s.sessions)
    sweep (λ x. is_over now (chain.get x.entitlement_id)) keys

  -- `_on_revoked`
  unfoldable pub on_revoked :
      EntitlementReader → (entitlement_id : ℕ) → Exec (StubController N) (Unit {0})
  on_revoked chain entitlement_id = do
    view ← lift (chain.get entitlement_id)
    if view.revoked
        then (do
          keys ← gets (λ s. Dict.keys s.sessions)
          sweep (λ x. ok (x.entitlement_id == entitlement_id)) keys)
        else pure tt
