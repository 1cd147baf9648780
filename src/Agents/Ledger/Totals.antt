-- ===== src/Agents/Ledger/Totals.antt =====
-- provider_graph.py: what each loop of the ledger does to the sum of the units.
use a2a_tokenized_provisioni.Base.{
  ℕ, ◌+◌, ◌-◌, ◌≤◌, ◌≡◌, Option, none, some, List, [], ◌∷◌, ◌++◌, ◌==◌, arith, nat_beq_iff, nat_eq,
  if◌then◌else◌, Option-cases, inl, inr,
}
use a2a_tokenized_provisioni.Dict.{get-put}
use a2a_tokenized_provisioni.Agents.Ledger.{
  Hold, Window, window_eq, CapacityLedger, holds_of, keep_live, swept, sum_units, write, restamp,
  restamped, give_back,
}

pub sum_units-append : (g h : List Hold) → sum_units (g ++ h) ≡ sum_units g + sum_units h
unfolding sum_units
sum_units-append [] h = omega arith
sum_units-append (x ∷ g) h = omega (arith, sum_units-append g h)

sum_units-keep_live :
    (now : ℕ) (holds : List Hold) → sum_units (keep_live now holds) ≤ sum_units holds
unfolding sum_units keep_live
sum_units-keep_live now [] = omega arith
sum_units-keep_live now (h ∷ holds) = ground (arith, sum_units-keep_live now holds)

pub sum_units-swept :
    (clock : Option ℕ) (holds : List Hold) → sum_units (swept clock holds) ≤ sum_units holds
unfolding swept
sum_units-swept none holds = omega arith
sum_units-swept (some now) holds = sum_units-keep_live now holds

sum_units-restamp :
    (units expires_at : ℕ) (holds stamped : List Hold)
    → restamp units expires_at holds ≡ some stamped
    → sum_units stamped ≡ sum_units holds
unfolding restamp sum_units
sum_units-restamp units expires_at [] stamped e = absurd (cc)
sum_units-restamp units expires_at (h ∷ holds) stamped e =
    elim (Option-cases (restamp units expires_at holds)) [
      | inl p ↦ ground (arith, p, e)
      | inr (rest, p) ↦ ground (arith, p, e, sum_units-restamp units expires_at holds rest p)
    ]

pub sum_units-restamped :
    (units expires_at : ℕ) (holds : List Hold)
    → sum_units (restamped units expires_at holds) ≡ sum_units holds
unfolding restamped
sum_units-restamped units expires_at holds = elim (Option-cases (restamp units expires_at holds)) [
  | inl p ↦ rw (restamped, p)
  | inr (rest, p) ↦ rw (restamped, p) (sum_units-restamp units expires_at holds rest p)
]

pub sum_units-give_back :
    (remaining : ℕ) (holds : List Hold)
    → sum_units (give_back remaining holds) ≡ sum_units holds - remaining
unfolding give_back sum_units
sum_units-give_back remaining [] = omega arith
sum_units-give_back remaining (head ∷ holds) =
    ground (arith, sum_units-give_back (remaining - head.units) holds, nat_beq_iff remaining 0)

pub holds_of-write :
    (l : CapacityLedger) (v w : Window) (holds : List Hold)
    → holds_of (write l v holds) w ≡ (if v == w then holds else holds_of l w)
unfolding holds_of
holds_of-write l v w holds = ground (arith, get-put l.holds v w holds)
