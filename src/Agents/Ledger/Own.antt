-- ===== src/Agents/Ledger/Own.antt =====
-- provider_graph.py: the hold of a sale from its admission on, behind the holds of other sales.
use a2a_tokenized_provisioni.Base.{
  ℕ, ◌+◌, ◌<◌, ◌≡◌, refl, Option, some, List, [], ◌∷◌, ◌++◌, arith, nat_beq_iff, nat_eq,
}
use a2a_tokenized_provisioni.Agents.Ledger.{
  Hold, quote_hold_s, keep_live, sum_units, restamp, restamped, give_back, until,
}
use a2a_tokenized_provisioni.Agents.Ledger.Totals.{sum_units-append, sum_units-give_back}

-- the hold that an admission takes
abbrev pub own : (clock : Option (ℕ × ℕ)) (units : ℕ) → Hold
own clock units = record { units = units; expires_at = until clock }

pub keep_live-append_live :
    (now : ℕ) (others : List Hold) (units later : ℕ)
    → now < later + quote_hold_s
    → let mine : Hold = record { units = units; expires_at = some (later + quote_hold_s) } in
      keep_live now (others ++ mine ∷ []) ≡ keep_live now others ++ mine ∷ []
unfolding keep_live
keep_live-append_live now [] units later h = ground (arith, h)
keep_live-append_live now (x ∷ others) units later h =
    ground (arith, keep_live-append_live now others units later h)

restamp-append :
    (units expires_at : ℕ) (others : List Hold) (mine : Hold)
    → mine.units ≡ units
    → restamp units expires_at (others ++ mine ∷ [])
      ≡ some (others ++ record mine { expires_at = some expires_at } ∷ [])
unfolding restamp
restamp-append units expires_at [] mine h = ground (arith, h, nat_beq_iff mine.units units)
restamp-append units expires_at (x ∷ others) mine h =
    rw (restamp-append units expires_at others mine h) refl

-- The most recent hold of so many units is the one that is stamped.
pub restamped-append :
    (units expires_at : ℕ) (others : List Hold) (mine : Hold)
    → mine.units ≡ units
    → restamped units expires_at (others ++ mine ∷ [])
      ≡ others ++ record mine { expires_at = some expires_at } ∷ []
unfolding restamped
restamped-append units expires_at others mine h =
    rw (restamped, restamp-append units expires_at others mine h) refl

pub sum_units-give_back_own :
    (others : List Hold) (mine : Hold)
    → sum_units (give_back mine.units (others ++ mine ∷ [])) ≡ sum_units others
unfolding sum_units
sum_units-give_back_own others mine = omega (
  arith,
  sum_units-give_back mine.units (others ++ mine ∷ []),
  sum_units-append others (mine ∷ []),
)
