-- ===== src/Agents/Ledger.antt =====
-- agents/src/agents/provider_graph.py: `CapacityLedger`, the units that are held in each window.
-- Every method runs under the ledger's lock, so a method is one step. A reading of the clock is an
-- argument, `none` where the ledger has no clock.
pub mod Totals
pub mod Admission
pub mod Own
use a2a_tokenized_provisioni.Base.{
  ℕ, ◌+◌, ◌-◌, ◌≡◌, refl, Bool, true, false, Option, none, some, List, [], ◌∷◌, ◌++◌, ◌==◌, ◌&&◌,
  Eq, ◌↔◌, arith, nat_beq, nat_beq_iff, nat_eq, ltb, if◌then◌else◌,
}
use a2a_tokenized_provisioni.Base.Int.{ℤ, pos, sub_ℕ, ltb_ℤ}
use a2a_tokenized_provisioni.Dict
use a2a_tokenized_provisioni.Dict.{Dict}

abbrev pub quote_hold_s : ℕ
quote_hold_s = 300

-- `_Hold`
pub record Hold : Type 0 where
  pub units : ℕ
  pub expires_at : Option ℕ

-- a window as a key: its start and its end
abbrev pub Window : Type 0
Window = ℕ × ℕ

abbrev pub window_beq : (v w : Window) → Bool
window_beq (a, b) (c, d) = nat_beq a c && nat_beq b d

pub window_beq_iff : (v w : Window) → (window_beq v w ≡ true) ↔ (v ≡ w)
window_beq_iff (a, b) (c, d) = ground (arith, nat_beq_iff a c, nat_beq_iff b d)

instance abbrev pub window_eq : Eq Window
window_eq = record { beq = window_beq; beq_iff = window_beq_iff }

pub record CapacityLedger : Type 0 where
  pub capacity : ℕ
  pub holds : Dict Window (List Hold)

-- `self._holds.setdefault(window, [])`, the list
unfoldable pub holds_of : CapacityLedger → Window → List Hold
holds_of l window = elim (Dict.get l.holds window) [ none ↦ [] | some holds ↦ holds ]

-- `h.expires_at is None or h.expires_at > now`
abbrev pub live : (now : ℕ) → Hold → Bool
live now h = elim h.expires_at [ none ↦ true | some t ↦ ltb now t ]

unfoldable pub keep_live : (now : ℕ) → List Hold → List Hold
keep_live now [] = []
keep_live now (h ∷ holds) = let rest = keep_live now holds in if live now h then h ∷ rest else rest

-- `_sweep` of a list, by the reading of the clock
unfoldable pub swept : (clock : Option ℕ) → List Hold → List Hold
swept none holds = holds
swept (some now) holds = keep_live now holds

-- `sum(h.units for h in holds)`
unfoldable pub sum_units : List Hold → ℕ
sum_units [] = 0
sum_units (h ∷ holds) = h.units + sum_units holds

-- the ledger with another list for a window
abbrev pub write : CapacityLedger → Window → List Hold → CapacityLedger
write l window holds = record l { holds = Dict.put l.holds window holds }

-- `reserved`, with the ledger that its sweep leaves
unfoldable pub reserved : (clock : Option ℕ) → Window → CapacityLedger → ℕ × CapacityLedger
unfolding holds_of
reserved clock window l =
    let holds = swept clock (holds_of l window) in (sum_units holds, write l window holds)

-- `available`: it is negative where more is held than there is
unfoldable pub available : (clock : Option ℕ) → Window → CapacityLedger → ℤ × CapacityLedger
unfolding reserved
available clock window l = let (held, l') = reserved clock window l in (sub_ℕ l.capacity held, l')

-- `try_reserve`, which reads the clock in the sweep and again for the new hold
abbrev pub until : (clock : Option (ℕ × ℕ)) → Option ℕ
until none = none
until (some (now, later)) = some (later + quote_hold_s)

abbrev pub first_reading : Option (ℕ × ℕ) → Option ℕ
first_reading none = none
first_reading (some (now, later)) = some now

unfoldable pub try_reserve :
    (clock : Option (ℕ × ℕ)) → Window → (units : ℕ) → CapacityLedger → Bool × CapacityLedger
unfolding available
try_reserve clock window units l =
    let (free, l') = available (first_reading clock) window l in
    if ltb_ℤ free (pos units) then (false, l') else (
      true,
      write l' window
          (holds_of l' window ++ record { units = units; expires_at = until clock } ∷ []),
    )

-- the loop of `hold_until` over the reversed list: the last hold of so many units, if there is one
unfoldable pub restamp : (units expires_at : ℕ) → List Hold → Option (List Hold)
restamp units expires_at [] = none
restamp units expires_at (h ∷ holds) = elim (restamp units expires_at holds) [
  | some rest ↦ some (h ∷ rest)
  | none ↦
      if h.units == units then some (record h { expires_at = some expires_at } ∷ holds) else none
]

unfoldable pub restamped : (units expires_at : ℕ) → List Hold → List Hold
unfolding restamp
restamped units expires_at holds = elim (restamp units expires_at holds) [
  | none ↦ holds
  | some stamped ↦ stamped
]

unfoldable pub hold_until :
    (clock : Option ℕ) → Window → (units expires_at : ℕ) → CapacityLedger → CapacityLedger
unfolding holds_of
hold_until clock window units expires_at l =
    write l window (restamped units expires_at (swept clock (holds_of l window)))

-- the loop of `release`, with `remaining` units to give back
unfoldable pub give_back : (remaining : ℕ) → List Hold → List Hold
give_back remaining [] = []
give_back remaining (head ∷ holds) =
    let rest = give_back (remaining - head.units) holds in
    if remaining == 0
    then head ∷ holds
    else if ltb remaining head.units
    then record head { units = head.units - remaining } ∷ holds
    else rest

unfoldable pub release : (clock : Option ℕ) → Window → (units : ℕ) → CapacityLedger → CapacityLedger
unfolding holds_of
release clock window units l = write l window (give_back units (swept clock (holds_of l window)))
