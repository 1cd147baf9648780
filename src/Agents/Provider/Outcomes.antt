-- ===== src/Agents/Provider/Outcomes.antt =====
-- provider_graph.py: every way in which a request for a quote can end, and what it leaves held.
use a2a_tokenized_provisioni.Base.{
  ℕ, ◌+◌, ◌<◌, ◌≤◌, ◌≡◌, refl, ◌⊎◌, inl, inr, true, false, Option, none, some, List, [], ◌∷◌, ◌++◌,
  arith, leb, Bool-cases,
}
use a2a_tokenized_provisioni.Exec.{Exception, Result, ok, raised, Result-cases}
use a2a_tokenized_provisioni.Interfaces.{ServiceNeed, SignedOffer, Decline}
use a2a_tokenized_provisioni.Agents.Catalogue.{demand}
use a2a_tokenized_provisioni.Agents.Ledger.{
  Hold, window_eq, window_beq_iff, quote_hold_s, CapacityLedger, holds_of, swept, sum_units,
  try_reserve, hold_until, release, first_reading, give_back,
}
use a2a_tokenized_provisioni.Agents.Ledger.Admission.{
  admission, try_reserve_lem, holds_of-write_self, Fits, by_reserve, by_hold_until, by_release, Run,
  here, next, Run-Fits,
}
use a2a_tokenized_provisioni.Agents.Ledger.Own.{
  own, keep_live-append_live, restamped-append, sum_units-give_back_own,
}
use a2a_tokenized_provisioni.Agents.Provider.Decisions.{
  Decides, Undecided, decide_quote-Decides, decide_quote-Undecided,
}
use a2a_tokenized_provisioni.Agents.Provider.{
  QuoteDecision, QuoteModel, SignOffer, Readings, at_admission, at_quote, key_of, decide_quote,
  answer, no_capacity, quote, admit, provide,
}

-- The quote is decided before the hold of its admission expires.
abbrev pub Prompt : Option Readings → Type 0
Prompt none = Unit
Prompt (some r) = r.quoted_at < r.stamped_at + quote_hold_s

swept-own :
    (clock : Option Readings) (units : ℕ)
    → Prompt clock
    → (kept : List Hold)
    → swept (at_quote clock) (kept ++ own (at_admission clock) units ∷ [])
      ≡ swept (at_quote clock) kept ++ own (at_admission clock) units ∷ []
unfolding swept
swept-own none units prompt kept = refl
swept-own (some r) units prompt kept =
    keep_live-append_live r.quoted_at kept units r.stamped_at prompt

module _ (llm : Option QuoteModel) (sign_offer : SignOffer) (clock : Option Readings)
    (need : ServiceNeed) where
  -- The live holds of the window at the admission, and those of them that are live at the quote.
  abbrev pub others : CapacityLedger → List Hold
  others l = swept (first_reading (at_admission clock)) (holds_of l (key_of need))

  abbrev pub later_others : CapacityLedger → List Hold
  later_others l = swept (at_quote clock) (others l)

  abbrev pub mine : Hold
  mine = own (at_admission clock) (demand need)

  -- The ends of a run from a ledger `l`, with what the window then holds.
  pub data Outcome (l : CapacityLedger) : Result (SignedOffer ⊎ Decline) → List Hold → Type 0 where
    over_capacity :
        l.capacity < sum_units (others l) + demand need
        → Outcome l (ok (inr no_capacity)) (others l)
    undecided :
        (x : Exception)
        → sum_units (others l) + demand need ≤ l.capacity
        → Undecided llm need x
        → Outcome l (raised x) (others l ++ mine ∷ [])
    unsigned :
        (x : Exception) (d : QuoteDecision)
        → sum_units (others l) + demand need ≤ l.capacity
        → Decides llm need d
        → d.quote ≡ true
        → sign_offer need d.price_tok ≡ raised x
        → Outcome l (raised x) (others l ++ mine ∷ [])
    signed :
        (s : SignedOffer) (d : QuoteDecision)
        → sum_units (others l) + demand need ≤ l.capacity
        → Decides llm need d
        → d.quote ≡ true
        → sign_offer need d.price_tok ≡ ok s
        → Outcome l
            (ok (inl s))
            (later_others l ++ record mine { expires_at = some s.offer.valid_until } ∷ [])
    declined :
        (d : QuoteDecision) (left : List Hold)
        → sum_units (others l) + demand need ≤ l.capacity
        → Decides llm need d
        → d.quote ≡ false
        → sum_units left ≡ sum_units (later_others l)
        → Outcome l (ok (inr (record { reason = d.reason }))) left

  -- `quote` after an admission that left the ledger `t`.
  quote_lem :
      Prompt clock
      → (l t : CapacityLedger) → sum_units (others l) + demand need ≤ l.capacity
      → holds_of t (key_of need) ≡ others l ++ mine ∷ []
      → let (r, l') = quote llm sign_offer clock need t in Outcome l r (holds_of l' (key_of need))
  unfolding quote answer hold_until release
  quote_lem prompt l t fits h =
      let kept = swept-own clock (demand need) prompt (others l) in
      elim (Result-cases (decide_quote llm need)) [
        | inl (d, e) ↦
            let decides = decide_quote-Decides llm need d e in
            elim (Bool-cases d.quote) [
              | inl sells ↦ elim (Result-cases (sign_offer need d.price_tok)) [
                | inl (s, p) ↦
                    rw (e, sells, p, holds_of-write_self, h, kept)
                      (rw
                        (restamped-append (demand need) s.offer.valid_until (later_others l) mine
                          refl)
                        (signed s d fits decides sells p))
                | inr (x, p) ↦ rw (e, sells, p, h) (unsigned x d fits decides sells p)
              ]
              | inr halts ↦
                  rw (e, halts, holds_of-write_self, h, kept)
                    (declined d (give_back (demand need) (later_others l ++ mine ∷ [])) fits decides
                      halts (sum_units-give_back_own (later_others l) mine))
            ]
        | inr (x, e) ↦ rw (e, h) (undecided x fits (decide_quote-Undecided llm need x e))
      ]

  -- Where the quote is decided before its hold expires, a run of the provider's graph ends in one
  -- of five ways. Over capacity it declines. The decision is the list price without a model, the
  -- model's own with one, and a decline where the model's answer had no usable form; a model that
  -- raises anything else, or a tool that raises, leaves the hold of the admission. A signed offer,
  -- at the decided price, is backed by one hold up to its end of validity, behind the holds of
  -- other sales; a decision to decline leaves as many units held as if nobody had asked.
  pub provide_lem :
      Prompt clock
      → (l : CapacityLedger)
      → let (r, l') = provide llm sign_offer clock need l in Outcome l r (holds_of l' (key_of need))
  unfolding provide admit
  provide_lem prompt l =
      let (fits_eq, _, holds) =
        try_reserve_lem (at_admission clock) (key_of need) (demand need) l in
      let t = (try_reserve (at_admission clock) (key_of need) (demand need) l).1 in
      let there : holds_of t (key_of need)
          ≡ admission (at_admission clock) (key_of need) (demand need) l =
        ground (arith, holds (key_of need), window_beq_iff (key_of need) (key_of need)) in
      elim (Bool-cases (leb (sum_units (others l) + demand need) l.capacity)) [
        | inl fits ↦
            rw (fits_eq, fits) (quote_lem prompt l t (ground (arith, fits)) (rw fits at there))
        | inr full ↦
            let left : holds_of t (key_of need) ≡ others l = rw full at there in
            rw (fits_eq, full, left) (over_capacity (ground (arith, full)))
      ]

  -- A run of the graph is a run of the ledger's steps.
  quote-Run : {l t : CapacityLedger} → Run l t → Run l (quote llm sign_offer clock need t).1
  unfolding quote answer
  quote-Run {l} {t} before = elim (Result-cases (decide_quote llm need)) [
    | inl (d, e) ↦ elim (Bool-cases d.quote) [
      | inl sells ↦ elim (Result-cases (sign_offer need d.price_tok)) [
        | inl (s, p) ↦
            rw (e, sells, p)
              (next before
                (by_hold_until (at_quote clock) (key_of need) (demand need) s.offer.valid_until))
        | inr (x, p) ↦ rw (e, sells, p) before
      ]
      | inr halts ↦
          rw (e, halts) (next before (by_release (at_quote clock) (key_of need) (demand need)))
    ]
    | inr (x, e) ↦ rw e before
  ]

  pub provide-Run : (l : CapacityLedger) → Run l (provide llm sign_offer clock need l).1
  unfolding provide admit
  provide-Run l =
      let tried : Run l (try_reserve (at_admission clock) (key_of need) (demand need) l).1 =
        next here (by_reserve (at_admission clock) (key_of need) (demand need)) in
      elim (Bool-cases (try_reserve (at_admission clock) (key_of need) (demand need) l).0) [
        | inl sells ↦ rw sells (quote-Run tried)
        | inr halts ↦ rw halts tried
      ]

  -- Whatever the model and the tool do, a provider whose windows hold no more than its capacity
  -- is one after a request for a quote too.
  pub provide-Fits : (l : CapacityLedger) → Fits l → Fits (provide llm sign_offer clock need l).1
  provide-Fits l f = (Run-Fits (provide-Run l) f).0
