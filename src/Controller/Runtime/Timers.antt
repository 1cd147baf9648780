-- ===== src/Controller/Runtime/Timers.antt =====
-- wiring.py: the timers that were started, by whether each was stopped.
use a2a_tokenized_provisioni.Base.{
  ℕ, zero, suc, ◌≡◌, refl, Bool, true, false, Option, none, some, List, [], ◌∷◌, inl, inr,
  Bool-cases,
}
use a2a_tokenized_provisioni.Interfaces.Ports.{EntitlementReader}
use a2a_tokenized_provisioni.Controller.Service.{Service, Wiring}
use a2a_tokenized_provisioni.Controller.Teardown.{tick}
use a2a_tokenized_provisioni.Controller.Runtime.{ExpiryTimer, run_nth}

-- Whether the timer numbered `k` from the latest was stopped, if there is one.
abbrev pub flag : ℕ → List ExpiryTimer → Option Bool
flag k [] = none
flag zero (timer ∷ timers) = some timer.stopped
flag (suc k) (timer ∷ timers) = flag k timers

-- what a wake leaves, by the flag of its timer
abbrev pub if_running : {A : Type 0} → Option Bool → (ticked old : A) → A
if_running none ticked old = old
if_running (some true) ticked old = old
if_running (some false) ticked old = ticked

module _ {N : Type 0} (wiring : Wiring N) (reader : EntitlementReader) where
  pub run_nth-if_running :
      (k : ℕ) (timers : List ExpiryTimer) (s : Service N)
      → (run_nth wiring reader k timers s).1 ≡ if_running (flag k timers) (tick wiring reader s).1 s
  unfolding run_nth
  run_nth-if_running k [] s = refl
  run_nth-if_running zero (timer ∷ timers) s = elim (Bool-cases timer.stopped) [
    | inl off ↦ rw off refl
    | inr on ↦ rw on refl
  ]
  run_nth-if_running (suc k) (timer ∷ timers) s = run_nth-if_running k timers s

  pub flag-run_nth :
      (j k : ℕ) (timers : List ExpiryTimer) (s : Service N)
      → flag j (run_nth wiring reader k timers s).0 ≡ flag j timers
  unfolding run_nth
  flag-run_nth j k [] s = refl
  flag-run_nth zero zero (timer ∷ timers) s = elim (Bool-cases timer.stopped) [
    | inl off ↦ rw off refl
    | inr on ↦ rw on refl
  ]
  flag-run_nth (suc j) zero (timer ∷ timers) s = refl
  flag-run_nth zero (suc k) (timer ∷ timers) s = refl
  flag-run_nth (suc j) (suc k) (timer ∷ timers) s = flag-run_nth j k timers s
