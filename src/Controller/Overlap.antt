-- ===== src/Controller/Overlap.antt =====
-- controller/src/controller/service.py: two activations whose requests run in threads of the server's
-- pool. The service holds no lock, so both may pass the predicate before either writes its session.
use a2a_tokenized_provisioni.Base.{
  ℕ, ◌+◌, ◌≡◌, ◌≢◌, refl, ◌∙◌, sym, true, some, [], ◌∷◌, arith, text_eq, append_cancel,
}
use a2a_tokenized_provisioni.Base.Decimal.{Text, codes, decimal, decimal_injective}
use a2a_tokenized_provisioni.Exec.{Result, ok, after}
use a2a_tokenized_provisioni.Dict
use a2a_tokenized_provisioni.Dict.{get-put_self, get-put_ne, get-remove_ne}
use a2a_tokenized_provisioni.Interfaces.{ApplyResult, EntitlementView, SessionInfo, active}
use a2a_tokenized_provisioni.Interfaces.Ports.{EntitlementReader}
use a2a_tokenized_provisioni.Controller.Domain.{transition-authorize, transition-provision_ok}
use a2a_tokenized_provisioni.Controller.Auth.{verify}
use a2a_tokenized_provisioni.Controller.Translators.{ProvisionerCall, translate, dispatch}
use a2a_tokenized_provisioni.Controller.Service.{Session, Service, Wiring, info, session_id, mapped}
use a2a_tokenized_provisioni.Controller.Sessions.{IsSound}
use a2a_tokenized_provisioni.Controller.Activate.{new_session, authorize, provision, open_session}
use a2a_tokenized_provisioni.Controller.Activate.Sound.{Authorized}
use a2a_tokenized_provisioni.Controller.Activate.Outcome.{spent, authorize_returns}

-- what the client of a request sends
pub record Submission : Type 0 where
  pub kind : Text
  pub nonce : Text
  pub signature : Text

module _ {N : Type 0} (wiring : Wiring N) (reader : EntitlementReader) (id : ℕ) where
  -- Both requests pass their checks, one after the other, and then both open their sessions.
  unfoldable pub overlapped :
      (first second : Submission) → Service N → Result SessionInfo × Result SessionInfo × Service N
  overlapped first second s =
      let (a, s1) = authorize wiring reader id first.kind first.nonce first.signature s in
      let (b, s2) = authorize wiring reader id second.kind second.nonce second.signature s1 in
      let (x, s3) = after a (open_session wiring id) s2 in
      let (y, s4) = after b (open_session wiring id) s3 in (x, y, s4)

-- One call, which the network accepts, opens the session.
open_session_returns :
    {N : Type 0} (wiring : Wiring N) (id : ℕ) (view : EntitlementView) (now : ℕ) (s : Service N)
    (call : ProvisionerCall) (result : ApplyResult)
    → translate (session_id id s.seq) view wiring.resource_map ≡ ok (call ∷ [])
    → (dispatch wiring.provisioner call s.net).0 ≡ ok result
    → result.ok ≡ true
    → let session = new_session id s.seq view now active in
      open_session wiring id (view, now) s ≡ (
        ok (info session),
        record s {
          sessions = Dict.put s.sessions session.session_id session;
          seq = s.seq + 1;
          net = (dispatch wiring.provisioner call s.net).1;
        },
      )
unfolding open_session mapped provision
open_session_returns wiring id view now s call result translated applied good =
    rw (transition-authorize, translated, applied, good, transition-provision_ok)

session_id-ne : (id n m : ℕ) → n ≢ m → session_id id n ≢ session_id id m
unfolding session_id
session_id-ne id n m h e = h (
    decimal_injective n m
      (append_cancel (codes "-a") (append_cancel (decimal id) (append_cancel (codes "ent") e))))

-- the session that a request opens under a number
abbrev pub opened_as : (id : ℕ) (view : EntitlementView) (now n : ℕ) → Session
opened_as id view now n = new_session id n view now active

module _ {N : Type 0} (wiring : Wiring N) (reader : EntitlementReader) (id : ℕ)
    (first second : Submission) (s : Service N) (view : EntitlementView) (now : ℕ)
    (one : Authorized wiring reader id first.kind first.nonce first.signature s view now)
    (two : Authorized wiring reader id second.kind second.nonce second.signature s view now)
    (other_nonce : first.nonce ≢ second.nonce) where
  -- the service when the first request has passed
  abbrev passed : Service N
  passed = record s {
    auth = spent wiring reader id first.kind first.nonce first.signature s view now one;
  }

  -- The first request's nonce is not the second's, so the second passes too.
  still_authorized :
      Authorized wiring reader id second.kind second.nonce second.signature passed view now
  unfolding verify
  still_authorized = record {
    owner = two.owner;
    viewed = two.viewed;
    owned = two.owned;
    timed = two.timed;
    proven = record {
      expires_at = two.proven.expires_at;
      is_open =
          get-remove_ne s.auth.open_nonces first.nonce second.nonce other_nonce
          ∙ two.proven.is_open;
      in_time = two.proven.in_time;
      signed = two.proven.signed;
    };
    permitted = two.permitted;
  }

  -- the service when both have passed
  abbrev both_passed : Service N
  both_passed = record passed {
    auth =
        spent wiring reader id second.kind second.nonce second.signature passed view now
          still_authorized;
  }

  module _ (call call' : ProvisionerCall) (result result' : ApplyResult)
      (translated : translate (session_id id s.seq) view wiring.resource_map ≡ ok (call ∷ []))
      (applied : (dispatch wiring.provisioner call s.net).0 ≡ ok result)
      (accepted : result.ok ≡ true)
      (translated' : translate (session_id id (s.seq + 1)) view wiring.resource_map
        ≡ ok (call' ∷ []))
      (applied' : (dispatch wiring.provisioner call' (dispatch wiring.provisioner call s.net).1).0
        ≡ ok result')
      (accepted' : result'.ok ≡ true) where
    overlapped-eq : overlapped wiring reader id first second s ≡ (
      ok (info (opened_as id view now s.seq)),
      ok (info (opened_as id view now (s.seq + 1))),
      record both_passed {
        sessions =
            Dict.put
              (Dict.put s.sessions (session_id id s.seq) (opened_as id view now s.seq))
              (session_id id (s.seq + 1))
              (opened_as id view now (s.seq + 1));
        seq = s.seq + 1 + 1;
        net = (dispatch wiring.provisioner call' (dispatch wiring.provisioner call s.net).1).1;
      },
    )
    unfolding overlapped
    overlapped-eq =
        let s3 = record both_passed {
          sessions = Dict.put s.sessions (session_id id s.seq) (opened_as id view now s.seq);
          seq = s.seq + 1;
          net = (dispatch wiring.provisioner call s.net).1;
        } in
        rw (
          authorize_returns wiring reader id first.kind first.nonce first.signature s view now one,
          authorize_returns wiring reader id second.kind second.nonce second.signature passed view
              now still_authorized,
          open_session_returns wiring id view now both_passed call result translated applied
              accepted,
          open_session_returns wiring id view now s3 call' result' translated' applied' accepted',
        )

    -- Two requests for one entitlement with a nonce each, which are both authorized in one state,
    -- both return an active session of it where their checks overlap, and the service then holds
    -- two: the check of a conflict does not keep an entitlement to one active session.
    pub overlapped-double :
        let session1 = opened_as id view now s.seq in
        let session2 = opened_as id view now (s.seq + 1) in
        let (x, y, t) = overlapped wiring reader id first second s in
        (x ≡ ok (info session1))
        × (y ≡ ok (info session2))
        × (Dict.get t.sessions session1.session_id ≡ some session1)
        × (Dict.get t.sessions session2.session_id ≡ some session2)
        × (session1.session_id ≢ session2.session_id)
        × ¬ IsSound t.sessions t.seq
    overlapped-double =
        let session1 = opened_as id view now s.seq in
        let session2 = opened_as id view now (s.seq + 1) in
        let apart : session_id id (s.seq + 1) ≢ session_id id s.seq =
          session_id-ne id (s.seq + 1) s.seq (λ e. omega (arith, e)) in
        let there1 =
          get-put_ne (Dict.put s.sessions session1.session_id session1) session2.session_id
            session1.session_id session2 apart
          ∙ get-put_self s.sessions session1.session_id session1 in
        let there2 =
          get-put_self (Dict.put s.sessions session1.session_id session1) session2.session_id
            session2 in
        rw overlapped-eq (
          refl,
          refl,
          there1,
          there2,
          λ e. apart (sym e),
          λ sound. apart (
              sym (
                sound.single session1.session_id session2.session_id session1 session2 there1 there2
                  refl refl refl)),
        )
