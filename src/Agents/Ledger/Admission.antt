-- ===== src/Agents/Ledger/Admission.antt =====
-- provider_graph.py: what the recorded holds of a window come to, and what one sale does to them.
use a2a_tokenized_provisioni.Base.{
  not, ℕ, ◌+◌, ◌-◌, ap, ◌≤◌, ◌≡◌, refl, ◌∙◌, Option, List, [], ◌∷◌, ◌++◌, ◌==◌, arith, nat_eq, leb,
  if◌then◌else◌, Bool-cases, inl, inr,
}
use a2a_tokenized_provisioni.Base.Int.{pos, sub_ℕ, ltb_ℤ}
use a2a_tokenized_provisioni.Agents.Ledger.{
  Hold, Window, window_eq, window_beq_iff, CapacityLedger, holds_of, swept, sum_units, write,
  reserved, available, try_reserve, first_reading, until, restamped, hold_until, give_back, release,
}
use a2a_tokenized_provisioni.Agents.Ledger.Totals.{
  sum_units-append, sum_units-swept, sum_units-restamped, sum_units-give_back, holds_of-write,
}

sum_units-give_back_eq :
    (remaining : ℕ) (holds : List Hold)
    → sum_units (give_back remaining holds) ≡ sum_units holds - remaining
unfolding sum_units give_back
sum_units-give_back_eq remaining [] = omega arith
sum_units-give_back_eq remaining (head ∷ holds) =
    ground (arith, sum_units-give_back_eq (remaining - head.units) holds)

-- The ledger after an admission, where it fits and where it does not.
abbrev pub admission :
    (clock : Option (ℕ × ℕ)) (window : Window) (units : ℕ) → CapacityLedger → List Hold
admission clock window units l =
    let kept = swept (first_reading clock) (holds_of l window) in
    if leb (sum_units kept + units) l.capacity
    then kept ++ record { units = units; expires_at = until clock } ∷ []
    else kept

exceeds : (c held units : ℕ) → ltb_ℤ (sub_ℕ c held) (pos units) ≡ not (leb (held + units) c)
exceeds c held units = ground arith

pub holds_of-write_self :
    (l : CapacityLedger) (window : Window) (holds : List Hold)
    → holds_of (write l window holds) window ≡ holds
holds_of-write_self l window holds =
    ground (arith, holds_of-write l window window holds, window_beq_iff window window)

try_reserve-eq :
    (clock : Option (ℕ × ℕ)) (window : Window) (units : ℕ) (l : CapacityLedger)
    → let kept = swept (first_reading clock) (holds_of l window) in
      let fits = leb (sum_units kept + units) l.capacity in
      try_reserve clock window units l ≡ (
        fits,
        (if fits
            then write (write l window kept) window (admission clock window units l)
            else write l window (admission clock window units l)),
      )
unfolding try_reserve available reserved
try_reserve-eq clock window units l =
    let kept = swept (first_reading clock) (holds_of l window) in
    elim (Bool-cases (leb (sum_units kept + units) l.capacity)) [
      | inl fits ↦
          rw (exceeds l.capacity (sum_units kept) units, fits, holds_of-write_self l window kept)
            refl
      | inr full ↦ rw (exceeds l.capacity (sum_units kept) units, full) refl
    ]

-- An admission succeeds exactly when the units fit beside the live holds of the window; then it
-- adds one hold for 300 seconds, and otherwise it only drops the holds that have expired. Other
-- windows and the capacity are as they were.
pub try_reserve_lem :
    (clock : Option (ℕ × ℕ)) (window : Window) (units : ℕ) (l : CapacityLedger)
    → let (fits, l') = try_reserve clock window units l in
      let held = sum_units (swept (first_reading clock) (holds_of l window)) in
      (fits ≡ leb (held + units) l.capacity)
      × (l'.capacity ≡ l.capacity)
      × ((w : Window)
          → holds_of l' w ≡ (if window == w then admission clock window units l else holds_of l w))
try_reserve_lem clock window units l =
    let kept = swept (first_reading clock) (holds_of l window) in
    let new = kept ++ record { units = units; expires_at = until clock } ∷ [] in
    rw (try_reserve-eq clock window units l)
      (elim (Bool-cases (leb (sum_units kept + units) l.capacity)) [
        | inl fits ↦ rw fits (
          refl,
          refl,
          λ w. ground (
            arith,
            holds_of-write (write l window kept) window w new,
            holds_of-write l window w kept,
          ),
        )
        | inr full ↦ rw full (refl, refl, λ w. holds_of-write l window w kept)
      ])

-- No window holds more than there is.
abbrev pub Fits : CapacityLedger → Type 0
Fits l = (window : Window) → sum_units (holds_of l window) ≤ l.capacity

pub data Step : CapacityLedger → CapacityLedger → Type 0 where
  by_reserve :
      {l : CapacityLedger} (clock : Option (ℕ × ℕ)) (window : Window) (units : ℕ)
      → Step l (try_reserve clock window units l).1
  by_hold_until :
      {l : CapacityLedger} (clock : Option ℕ) (window : Window) (units expires_at : ℕ)
      → Step l (hold_until clock window units expires_at l)
  by_release :
      {l : CapacityLedger} (clock : Option ℕ) (window : Window) (units : ℕ)
      → Step l (release clock window units l)
  by_look :
      {l : CapacityLedger} (clock : Option ℕ) (window : Window) → Step l (reserved clock window l).1

pub data Run (start : CapacityLedger) : CapacityLedger → Type 0 where
  here : Run start start
  next : {l m : CapacityLedger} → Run start l → Step l m → Run start m

admission-fits :
    (clock : Option (ℕ × ℕ)) (window : Window) (units : ℕ) (l : CapacityLedger)
    → sum_units (holds_of l window) ≤ l.capacity
    → sum_units (admission clock window units l) ≤ l.capacity
unfolding sum_units
admission-fits clock window units l h =
    let kept = swept (first_reading clock) (holds_of l window) in
    ground (
      arith,
      h,
      sum_units-swept (first_reading clock) (holds_of l window),
      sum_units-append kept (record { units = units; expires_at = until clock } ∷ []),
    )

-- A ledger with a shorter list in one window fits too.
write-Fits :
    (l : CapacityLedger) (window : Window) (holds : List Hold)
    → Fits l
    → sum_units holds ≤ l.capacity
    → Fits (write l window holds)
write-Fits l window holds f h w = ground (arith, f w, h, holds_of-write l window w holds)

Step-Fits : {l m : CapacityLedger} → Step l m → Fits l → Fits m × (m.capacity ≡ l.capacity)
unfolding hold_until release reserved
Step-Fits {l} (by_reserve clock window units) f =
    let (fits, same, holds) = try_reserve_lem clock window units l in
    (
      λ w. ground (
        arith,
        same,
        holds w,
        f w,
        f window,
        admission-fits clock window units l (f window),
        window_beq_iff window w,
      ),
      same,
    )
Step-Fits {l} (by_hold_until clock window units expires_at) f =
    let kept = swept clock (holds_of l window) in
    (
      write-Fits l window (restamped units expires_at kept) f (
          omega (
            arith,
            f window,
            sum_units-restamped units expires_at kept,
            sum_units-swept clock (holds_of l window),
          )),
      refl,
    )
Step-Fits {l} (by_release clock window units) f =
    let kept = swept clock (holds_of l window) in
    (
      write-Fits l window (give_back units kept) f (
          omega (
            arith,
            f window,
            sum_units-give_back units kept,
            sum_units-swept clock (holds_of l window),
          )),
      refl,
    )
Step-Fits {l} (by_look clock window) f = (
  write-Fits l window (swept clock (holds_of l window)) f
      (omega (arith, f window, sum_units-swept clock (holds_of l window))),
  refl,
)

Run-Within : {l m : CapacityLedger} → Run l m → Fits l → Fits m × (m.capacity ≡ l.capacity)
Run-Within here f = (f, refl)
Run-Within (next before step) f =
    let (g, same) = Run-Within before f in let (h, again) = Step-Fits step g in (h, again ∙ same)

-- A release gives back exactly its units of the live holds of its window, or all that there are.
release_lem :
    (clock : Option ℕ) (window : Window) (units : ℕ) (l : CapacityLedger) (w : Window)
    → sum_units (holds_of (release clock window units l) w) ≡ (
        if window == w
        then sum_units (swept clock (holds_of l window)) - units
        else sum_units (holds_of l w))
unfolding release
release_lem clock window units l w =
    let kept = swept clock (holds_of l window) in
    ground
      (arith, holds_of-write l window w (give_back units kept), sum_units-give_back_eq units kept)

-- After any sequence of the ledger's calls, with any readings of the clock, from a ledger where the
-- recorded holds of no window exceed the capacity, they exceed it in none, and the capacity is the
-- same. There, an admission succeeds exactly when the units fit beside the live recorded holds of
-- its window, and a release frees exactly its units of the live holds of its window, or all of
-- them, and none of another window.
pub Run-Fits :
    {l m : CapacityLedger}
    → Run l m
    → Fits l
    → Fits m
      × (m.capacity ≡ l.capacity)
      × ((clock : Option (ℕ × ℕ)) (window : Window) (units : ℕ)
          → (try_reserve clock window units m).0
            ≡ leb (sum_units (swept (first_reading clock) (holds_of m window)) + units) l.capacity)
      × ((clock : Option ℕ) (window : Window) (units : ℕ) (w : Window)
          → sum_units (holds_of (release clock window units m) w) ≡ (
              if window == w
              then sum_units (swept clock (holds_of m window)) - units
              else sum_units (holds_of m w)))
Run-Fits {l} {m} steps f =
    let (g, same) = Run-Within steps f in
    (
      g,
      same,
      (λ clock window units.
          (try_reserve_lem clock window units m).0
          ∙ ap (λ c. leb (sum_units (swept (first_reading clock) (holds_of m window)) + units) c)
              same),
      λ clock window units w. release_lem clock window units m w,
    )
