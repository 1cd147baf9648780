-- ===== src/Controller/Runtime/Serves.antt =====
-- wiring.py and app.py: what the runtime does, by how often it was started and whether it was closed.
use a2a_tokenized_provisioni.Base.{
  ℕ, zero, suc, ◌+◌, ◌≡◌, refl, ◌∙◌, ap, Bool, true, false, none, some, List, [], ◌∷◌, ◌==◌, ◌&&◌,
  not, ltb, inl, inr, Bool-cases, if◌then◌else◌, nat_eq, arith,
}
use a2a_tokenized_provisioni.Interfaces.Ports.{EntitlementReader}
use a2a_tokenized_provisioni.Controller.Service.{Service, Wiring}
use a2a_tokenized_provisioni.Controller.Teardown.{tick, handle_revoked}
use a2a_tokenized_provisioni.Controller.App.{app}
use a2a_tokenized_provisioni.Controller.Runtime.{
  ExpiryTimer, ControllerRuntime, stop, Event, requested, woke, revoked, moved, started, closing,
  react, run, build_runtime,
}
use a2a_tokenized_provisioni.Controller.Runtime.Timers.{
  flag, if_running, run_nth-if_running, flag-run_nth,
}

module _ {N : Type 0} where
  -- The successful starts after an event: those before the first close.
  abbrev pub starts_after : Event N → (starts : ℕ) (closed : Bool) → ℕ
  starts_after started n closed = if closed then n else n + 1
  starts_after (requested reader token request) n closed = n
  starts_after (woke reader k) n closed = n
  starts_after (revoked reader id) n closed = n
  starts_after (moved net) n closed = n
  starts_after closing n closed = n

  abbrev pub closed_after : Event N → (closed : Bool) → Bool
  closed_after closing closed = true
  closed_after (requested reader token request) closed = closed
  closed_after (woke reader k) closed = closed
  closed_after (revoked reader id) closed = closed
  closed_after (moved net) closed = closed
  closed_after started closed = closed

-- A wake ticks if its timer was started and is not the latest one of a closed runtime; a revocation
-- is heard from the first start up to the close.
abbrev pub ticks : (starts : ℕ) (closed : Bool) (timer : ℕ) → Bool
ticks n closed k = ltb k n && not (closed && k == 0)

abbrev pub hears : (starts : ℕ) (closed : Bool) → Bool
hears n closed = ltb 0 n && not closed

module _ {N : Type 0} (wiring : Wiring N) where
  abbrev pub served : Event N → (starts : ℕ) (closed : Bool) → Service N → Service N
  served (requested reader token request) n closed s = (app wiring reader token request s).1
  served (woke reader k) n closed s = if ticks n closed k then (tick wiring reader s).1 else s
  served (revoked reader id) n closed s =
      if hears n closed then (handle_revoked wiring reader id s).1 else s
  served (moved net) n closed s = record s { net = net }
  served started n closed s = s
  served closing n closed s = s

  -- The service after a history, from the number of starts and whether there was a close.
  unfoldable pub serve : List (Event N) → (starts : ℕ) (closed : Bool) → Service N → Service N
  serve [] n closed s = s
  serve (event ∷ events) n closed s =
      serve events (starts_after event n closed) (closed_after event closed)
        (served event n closed s)

  -- The runtime's own state for so many starts and a close.
  record Matches (n : ℕ) (closed : Bool) (r : ControllerRuntime N) : Type 0 where
    closes : r.closed ≡ closed
    watches : r.watching ≡ ltb 0 n
    flags : (k : ℕ) → flag k r.timers ≡ (if ltb k n then some (closed && k == 0) else none)

  flag-stop :
      (n : ℕ) (closed : Bool) (timers : List ExpiryTimer)
      → ((k : ℕ) → flag k timers ≡ (if ltb k n then some (closed && k == 0) else none))
      → (k : ℕ) → flag k (stop timers) ≡ (if ltb k n then some (true && k == 0) else none)
  flag-stop n closed [] h zero = ground (arith, h 0)
  flag-stop n closed [] h (suc k) = ground (arith, h (suc k))
  flag-stop n closed (timer ∷ timers) h zero = ground (arith, h 0)
  flag-stop n closed (timer ∷ timers) h (suc k) = ground (arith, h (suc k))

  flag-start :
      (n : ℕ) (timers : List ExpiryTimer)
      → ((k : ℕ) → flag k timers ≡ (if ltb k n then some false else none))
      → (k : ℕ)
      → flag k (record { stopped = false; last_error = none } ∷ timers)
        ≡ (if ltb k (n + 1) then some false else none)
  flag-start n timers h zero = ground arith
  flag-start n timers h (suc k) = ground (arith, h k)

  wake-served :
      (reader : EntitlementReader) (k n : ℕ) (closed : Bool) (s : Service N)
      → if_running (if ltb k n then some (closed && k == 0) else none) (tick wiring reader s).1 s
        ≡ (if ticks n closed k then (tick wiring reader s).1 else s)
  wake-served reader k n closed s = elim (Bool-cases (ltb k n)) [
    | inr off ↦ rw off refl
    | inl on ↦ elim (Bool-cases (closed && k == 0)) [
      | inl over ↦ rw (on, over) refl
      | inr live ↦ rw (on, live) refl
    ]
  ]

  react-Matches :
      (event : Event N) (n : ℕ) (closed : Bool) (r : ControllerRuntime N)
      → Matches n closed r
      → Matches (starts_after event n closed) (closed_after event closed) (react wiring event r)
        × ((react wiring event r).service ≡ served event n closed r.service)
  unfolding react
  react-Matches (requested reader token request) n closed r h =
      (record { closes = h.closes; watches = h.watches; flags = h.flags }, refl)
  react-Matches (woke reader k) n closed r h = (
    record {
      closes = h.closes;
      watches = h.watches;
      flags = λ j. flag-run_nth wiring reader j k r.timers r.service ∙ h.flags j;
    },
    run_nth-if_running wiring reader k r.timers r.service
        ∙ rw (h.flags k) (wake-served reader k n closed r.service),
  )
  react-Matches (revoked reader id) n closed r h = elim (Bool-cases r.watching) [
    | inr off ↦ rw off (
      record { closes = h.closes; watches = cc (off, h.watches); flags = h.flags },
      ground (arith, off, h.watches),
    )
    | inl on ↦ elim (Bool-cases r.closed) [
      | inl over ↦
          rw (on, over)
            (
              record {
                closes = cc (over, h.closes);
                watches = cc (on, h.watches);
                flags = h.flags;
              },
              ground (arith, on, over, h.watches, h.closes),
            )
      | inr live ↦
          rw (on, live)
            (
              record {
                closes = cc (live, h.closes);
                watches = cc (on, h.watches);
                flags = h.flags;
              },
              ground (arith, on, live, h.watches, h.closes),
            )
    ]
  ]
  react-Matches (moved net) n closed r h =
      (record { closes = h.closes; watches = h.watches; flags = h.flags }, refl)
  react-Matches started n closed r h = elim (Bool-cases r.closed) [
    | inl over ↦
        let c : closed ≡ true = cc (over, h.closes) in
        rw (over, c) (record { closes = refl; watches = h.watches; flags = rw c at h.flags }, refl)
    | inr live ↦
        let c : closed ≡ false = cc (live, h.closes) in
        rw (live, c)
          (
            record {
              closes = refl;
              watches = ground arith;
              flags = flag-start n r.timers (rw c at h.flags);
            },
            refl,
          )
  ]
  react-Matches closing n closed r h = (
    record { closes = refl; watches = h.watches; flags = flag-stop n closed r.timers h.flags },
    refl,
  )

  run-serve_from :
      (events : List (Event N)) (n : ℕ) (closed : Bool) (r : ControllerRuntime N)
      → Matches n closed r
      → (run wiring events r).service ≡ serve events n closed r.service
  unfolding run serve
  run-serve_from [] n closed r h = refl
  run-serve_from (event ∷ events) n closed r h =
      let (matches, same) = react-Matches event n closed r h in
      run-serve_from events (starts_after event n closed) (closed_after event closed)
        (react wiring event r) matches
      ∙ ap (λ s. serve events (starts_after event n closed) (closed_after event closed) s) same

  -- Whatever requests, wakes of the timers, deliveries of the watcher, starts and closes come to
  -- the runtime, in any order, its service is the one that the history gives: a wake ticks exactly
  -- if its timer was started before any close and is not the latest one of a closed runtime, a
  -- revocation is heard exactly from the first start up to the close, and a start after a close
  -- starts nothing.
  pub run-serve :
      (events : List (Event N)) (start : Service N)
      → (run wiring events (build_runtime start)).service ≡ serve events 0 false start
  unfolding build_runtime
  run-serve events start =
      run-serve_from events 0 false (build_runtime start)
        (record { closes = refl; watches = refl; flags = λ k. ground arith })
