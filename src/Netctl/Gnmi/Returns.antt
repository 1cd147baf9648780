-- ===== src/Netctl/Gnmi/Returns.antt =====
-- provisioner.py: the port reports and callers decide: what the operations return.
use a2a_tokenized_provisioni.Base.{◌≡◌, refl, Bool, true, false, List, [], ◌∷◌, ◌++◌, inl, inr}
use a2a_tokenized_provisioni.Base.Decimal.{Text}
use a2a_tokenized_provisioni.Exec.{Exception, ok, raised, Result-cases}
use a2a_tokenized_provisioni.Interfaces.{ApplyResult}
use a2a_tokenized_provisioni.Interfaces.Ports.{TeardownReturns}
use a2a_tokenized_provisioni.Netctl.Gnmi.{Routers, Hands, template_name}
use a2a_tokenized_provisioni.Netctl.Gnmi.Operations.{clear, clear_all, teardown, gnmi}

module _ {R : Type 0} (routers : Routers R) (targets : List Text) where
  -- The run of a teardown over devices: whether it came through, and the state that it leaves.
  pub data Sweep (name : Text) : List Text → Hands R → Bool → Hands R → Type 0 where
    finished : (h : Hands R) → Sweep name [] h true h
    clean :
        (device : Text) (devices : List Text) (h h' : Hands R) (found through : Bool)
        → (clear routers targets device name h).0 ≡ ok found
        → Sweep name devices (clear routers targets device name h).1 through h'
        → Sweep name (device ∷ devices) h through h'
    broken :
        (device : Text) (devices : List Text) (h : Hands R) (x : Exception)
        → (clear routers targets device name h).0 ≡ raised x
        → Sweep name (device ∷ devices) h false (clear routers targets device name h).1

  clear_all_lem :
      (name : Text) (devices removed : List Text) (h : Hands R)
      → let (r, h') = clear_all routers targets devices name removed h in
        (a : ApplyResult) × (r ≡ ok a) × Sweep name devices h a.ok h'
  unfolding clear_all
  clear_all_lem name [] removed h = (_, refl, finished h)
  clear_all_lem name (device ∷ devices) removed h =
      elim (Result-cases (clear routers targets device name h).0) [
        | inr (x, p) ↦ rw p (_, refl, broken device devices h x p)
        | inl (true, p) ↦
            let h1 = (clear routers targets device name h).1 in
            let (a, e, s) = clear_all_lem name devices (removed ++ device ∷ []) h1 in
            rw p (a, e, clean device devices h _ true a.ok p s)
        | inl (false, p) ↦
            let h1 = (clear routers targets device name h).1 in
            let (a, e, s) = clear_all_lem name devices removed h1 in
            rw p (a, e, clean device devices h _ false a.ok p s)
      ]

  -- A teardown always returns; it reports success exactly when every device that is known was
  -- connected to and read, and the session's nodes on it deleted, with no exception, one device
  -- after the other; the first that raises ends it with a report of failure.
  pub teardown_lem :
      (session_id : Text) (h : Hands R)
      → let (r, h') = teardown routers targets session_id h in
        (a : ApplyResult) × (r ≡ ok a) × Sweep (template_name session_id) targets h a.ok h'
  unfolding teardown
  teardown_lem session_id h = clear_all_lem (template_name session_id) targets [] h

  -- The provisioner keeps the duty that the port documents, whatever the routers do.
  pub gnmi-TeardownReturns : TeardownReturns (gnmi routers targets)
  gnmi-TeardownReturns session_id h = let (a, e, s) = teardown_lem session_id h in (a, e)
