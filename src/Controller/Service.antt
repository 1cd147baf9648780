-- ===== src/Controller/Service.antt =====
-- controller/src/controller/service.py: the state of `ControllerService`, the helpers of its
-- methods, and `challenge` and `session`. A method is an action on the service's state, which
-- holds the network's state too.
use a2a_tokenized_provisioni.Base.{
  ℕ, ◌+◌, ◌≡◌, ◌++◌, Option, none, some, List, [], ◌∷◌, ◌==◌, if◌then◌else◌, text_eq, nat_eq,
}
use a2a_tokenized_provisioni.Base.Decimal.{Text, codes, decimal}
use a2a_tokenized_provisioni.Exec.{
  Exec, Result, ok, raised, denied, key_error, unmapped_resource, lift, modify, ◌>>=◌, ◌>>◌,
}
use a2a_tokenized_provisioni.Dict
use a2a_tokenized_provisioni.Dict.{Dict}
use a2a_tokenized_provisioni.Interfaces.{
  Bytes, EntitlementView, Resolved, SessionInfo, SessionState, active, torn_down, ErrorCode,
  e_unknown_entitlement, e_scope,
}
use a2a_tokenized_provisioni.Interfaces.Ports.{EntitlementReader, NetworkProvisioner}
use a2a_tokenized_provisioni.Controller.Domain.{state_eq}
use a2a_tokenized_provisioni.Controller.Auth.{Recover, Challenge, AuthStore, issue, verify}
use a2a_tokenized_provisioni.Controller.Translators.{ProvisionerCall}

-- `_Session`
pub record Session : Type 0 where
  pub session_id : Text
  pub entitlement_id : ℕ
  pub state : SessionState
  pub since : ℕ
  pub expires_at : ℕ

-- `ControllerService`: what its methods write
pub record Service (N : Type 0) : Type 0 where
  pub auth : AuthStore
  pub sessions : Dict Text Session
  pub seq : ℕ
  pub net : N

-- what the service is built with, and never writes
pub record Wiring (N : Type 0) : Type 0 where
  pub provisioner : NetworkProvisioner N
  pub recover : Recover
  pub resource_map : Dict Bytes Resolved

abbrev pub info : Session → SessionInfo
info s = record {
  session_id = s.session_id;
  entitlement_id = s.entitlement_id;
  state = s.state;
  since = s.since;
  expires_at = s.expires_at;
}

-- `_torn_down`
abbrev pub no_session : Text → SessionInfo
no_session sid = record {
  session_id = sid;
  entitlement_id = 0;
  state = torn_down;
  since = 0;
  expires_at = 0;
}

-- f"ent{entitlement_id}-a{seq}"
unfoldable pub session_id : ℕ → ℕ → Text
session_id id n = codes "ent" ++ (decimal id ++ (codes "-a" ++ decimal n))

-- the entitlements of the active sessions
unfoldable pub active_ids : Dict Text Session → List ℕ
active_ids [] = []
active_ids ((k, s) ∷ rest) =
    let others = active_ids rest in if s.state == active then s.entitlement_id ∷ others else others

-- `except KeyError: raise Denied(E_UNKNOWN_ENTITLEMENT)`
unfoldable pub known_id : Result EntitlementView → Result EntitlementView
known_id (ok view) = ok view
known_id (raised key_error) = raised (denied e_unknown_entitlement)
known_id (raised x) = raised x

-- `except UnmappedResource: raise Denied(E_SCOPE)`
unfoldable pub mapped : Result (List ProvisionerCall) → Result (List ProvisionerCall)
mapped (ok calls) = ok calls
mapped (raised (unmapped_resource id)) = raised (denied e_scope)
mapped (raised x) = raised x

-- `_view`
unfoldable pub view_of : EntitlementReader → ℕ → Result EntitlementView
unfolding known_id
view_of reader id = known_id (reader.get id)

known_id-eq-ok : (r : Result EntitlementView) (v : EntitlementView) → known_id r ≡ ok v → r ≡ ok v
unfolding known_id
known_id-eq-ok (ok w) v h = h
known_id-eq-ok (raised key_error) v h = absurd (cc)
known_id-eq-ok (raised _) v h = absurd (cc)

pub view_of-eq-ok :
    (reader : EntitlementReader) (id : ℕ) (v : EntitlementView)
    → view_of reader id ≡ ok v
    → reader.get id ≡ ok v
unfolding view_of
view_of-eq-ok reader id v h = known_id-eq-ok (reader.get id) v h

module _ {N : Type 0} where
  -- a call of the provisioner
  abbrev pub on_net : {A : Type 0} → Exec N A → Exec (Service N) A
  on_net m s = let (r, n) = m s.net in (r, record s { net = n })

  abbrev pub write_session : Text → Session → Exec (Service N) (Unit {0})
  write_session sid x = modify (λ s. record s { sessions = Dict.put s.sessions sid x })

module _ {N : Type 0} where
  -- `self._auth.issue`
  abbrev pub issue_nonce : (token : Text) (entitlement_id now : ℕ) → Exec (Service N) Challenge
  issue_nonce token entitlement_id now s =
      let (issued, auth') = issue token entitlement_id now s.auth in
      (ok issued, record s { auth = auth' })

  -- `self._auth.verify`
  abbrev pub check_proof :
      Recover
      → (entitlement_id : ℕ) (nonce signature owner : Text) (now : ℕ) (action : Text)
      → Exec (Service N) (Option ErrorCode)
  check_proof recover entitlement_id nonce signature owner now action s =
      let (denial, auth') = verify recover entitlement_id nonce signature owner now action s.auth in
      (ok denial, record s { auth = auth' })

  -- `self._seq`, and `self._seq += 1`
  abbrev pub next_seq : Exec (Service N) ℕ
  next_seq s = (ok s.seq, record s { seq = s.seq + 1 })

  unfoldable pub challenge :
      EntitlementReader → (token : Text) (entitlement_id : ℕ) → Exec (Service N) Challenge
  challenge reader token entitlement_id = do
    lift (view_of reader entitlement_id)
    now ← lift reader.chain_time
    issue_nonce token entitlement_id now

-- `session`
unfoldable pub session : {N : Type 0} → Text → Exec (Service N) SessionInfo
session sid s = elim (Dict.get s.sessions sid) [
  | none ↦ (raised (denied e_unknown_entitlement), s)
  | some x ↦ (ok (info x), s)
]
