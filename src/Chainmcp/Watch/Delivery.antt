-- ===== src/Chainmcp/Watch/Delivery.antt =====
-- client.py: which revocations the watcher hands to its callbacks.
use a2a_tokenized_provisioni.Base.{
  ℕ, zero, suc, ◌+◌, ◌-◌, ◌≤◌, ◌≡◌, refl, sym, ap, ◌∙◌, List, [], ◌∷◌, ◌++◌, map, leb, inl, inr,
  Bool-cases, arith, All, nat_eq,
}
use mathlib.Core.List.{append_assoc, append-nil}
use a2a_tokenized_provisioni.Chainmcp.Client.{Call, returns, reverts, fails}
use a2a_tokenized_provisioni.Chainmcp.Watch.Calls.{
  ids_for, registered, times, ids_for-append, ids_for-deliver,
}
use a2a_tokenized_provisioni.Chainmcp.Watch.{
  Round, Watcher, deliver, seen, answered, watch_round, watch,
}

-- The ids of `count` blocks from the one numbered `first`, in order.
unfoldable pub ids_of : (block : ℕ → List ℕ) (first count : ℕ) → List ℕ
ids_of block first zero = []
ids_of block first (suc count) = block first ++ ids_of block (first + 1) count

ids_of-add :
    (block : ℕ → List ℕ) (first m n : ℕ)
    → ids_of block first (m + n) ≡ ids_of block first m ++ ids_of block (first + m) n
unfolding ids_of
ids_of-add block first zero n =
    let same_count : 0 + n ≡ n = omega arith in
    let same_block : first + 0 ≡ first = omega arith in rw (same_count, same_block) refl
ids_of-add block first (suc m) n =
    let next_count : suc m + n ≡ suc (m + n) = omega arith in
    let next_block : first + suc m ≡ first + 1 + m = omega arith in
    rw (next_count, next_block)
      (ap (λ l. block first ++ l) (ids_of-add block (first + 1) m n)
        ∙ sym (
            append_assoc (block first) (ids_of block (first + 1) m)
              (ids_of block (first + 1 + m) n)))

deliver-append :
    (callbacks e f : List ℕ)
    → deliver callbacks (e ++ f) ≡ deliver callbacks e ++ deliver callbacks f
unfolding deliver
deliver-append callbacks [] f = refl
deliver-append callbacks (id ∷ e) f =
    ap (λ l. map (λ c. (c, id)) callbacks ++ l) (deliver-append callbacks e f)
    ∙ sym (append_assoc (map (λ c. (c, id)) callbacks) (deliver callbacks e) (deliver callbacks f))

module _ (block : ℕ → List ℕ) where
  -- The node's logs of a range of blocks are those of its blocks, in order.
  abbrev pub Honest : Round → Type 0
  Honest r =
      (from_block to_block : ℕ) (events : List ℕ)
      → r.logs from_block to_block ≡ returns events
      → events ≡ ids_of block from_block (to_block + 1 - from_block)

  -- A later watcher, by the calls of the two loops.
  pub record Delivers (callbacks : List ℕ) (w v : Watcher) : Type 0 where
    pub onward : w.last_seen ≤ v.last_seen
    pub handed :
        v.calls
        ≡ w.calls ++ deliver callbacks (ids_of block (w.last_seen + 1) (v.last_seen - w.last_seen))

  same_block : (w : Watcher) → w.last_seen - w.last_seen ≡ 0
  same_block w = omega arith

  -- The blocks up to a later one, in two parts.
  ids_of-split :
      (a b c : ℕ)
      → a ≤ b
      → b ≤ c
      → ids_of block (a + 1) (c - a) ≡ ids_of block (a + 1) (b - a) ++ ids_of block (b + 1) (c - b)
  ids_of-split a b c h k =
      ap (λ n. ids_of block (a + 1) n) (omega (arith, h, k))
      ∙ ids_of-add block (a + 1) (b - a) (c - b)
      ∙ ap (λ i. ids_of block (a + 1) (b - a) ++ ids_of block i (c - b)) (omega (arith, h))

  Delivers-same : (callbacks : List ℕ) (w : Watcher) → Delivers callbacks w w
  unfolding ids_of deliver
  Delivers-same callbacks w = record {
    onward = omega arith;
    handed = sym (
        ap (λ n. w.calls ++ deliver callbacks (ids_of block (w.last_seen + 1) n)) (same_block w)
        ∙ append-nil w.calls);
  }

  Delivers-trans :
      (callbacks : List ℕ) (u v w : Watcher)
      → Delivers callbacks u v
      → Delivers callbacks v w
      → Delivers callbacks u w
  Delivers-trans callbacks u v w f g = record {
    onward = omega (arith, f.onward, g.onward);
    handed =
        let e = ids_of block (u.last_seen + 1) (v.last_seen - u.last_seen) in
        let l = ids_of block (v.last_seen + 1) (w.last_seen - v.last_seen) in
        g.handed
        ∙ ap (λ calls. calls ++ deliver callbacks l) f.handed
        ∙ append_assoc u.calls (deliver callbacks e) (deliver callbacks l)
        ∙ ap (λ calls. u.calls ++ calls)
            (sym (deliver-append callbacks e l)
              ∙ ap (λ ids. deliver callbacks ids)
                  (sym (ids_of-split u.last_seen v.last_seen w.last_seen f.onward g.onward)));
  }

  seen-Delivers :
      (callbacks : List ℕ) (r : Round) (head : ℕ) (w : Watcher)
      → Honest r
      → w.last_seen ≤ head
      → (answer : Call (List ℕ)) → r.logs (w.last_seen + 1) head ≡ answer
      → Delivers callbacks w (seen callbacks head answer w)
  seen-Delivers callbacks r head w h le (returns events) e = record {
    onward = le;
    handed =
        ap (λ ids. w.calls ++ deliver callbacks ids)
          (h (w.last_seen + 1) head events e
            ∙ ap (λ n. ids_of block (w.last_seen + 1) n) (omega (arith, le)));
  }
  seen-Delivers callbacks r head w h le (reverts name) e = Delivers-same callbacks w
  seen-Delivers callbacks r head w h le fails e = Delivers-same callbacks w

  answered-Delivers :
      (callbacks : List ℕ) (r : Round) (w : Watcher)
      → Honest r
      → (head : Call ℕ) → Delivers callbacks w (answered callbacks r head w)
  answered-Delivers callbacks r w h (returns head) = elim (Bool-cases (leb head w.last_seen)) [
    | inl old ↦ rw old (Delivers-same callbacks w)
    | inr new ↦ rw new (
        seen-Delivers callbacks r head w h (ground (arith, new)) (r.logs (w.last_seen + 1) head)
          refl)
  ]
  answered-Delivers callbacks r w h (reverts name) = Delivers-same callbacks w
  answered-Delivers callbacks r w h fails = Delivers-same callbacks w

  watch_round-Delivers :
      (callbacks : List ℕ) (r : Round) (w : Watcher)
      → Honest r
      → Delivers callbacks w (watch_round callbacks r w)
  unfolding watch_round
  watch_round-Delivers callbacks r w h = answered-Delivers callbacks r w h r.head

  watch-Delivers :
      (callbacks : List ℕ) (rounds : List Round) (w : Watcher)
      → All Honest rounds
      → Delivers callbacks w (watch callbacks rounds w)
  unfolding watch
  watch-Delivers callbacks [] w h = Delivers-same callbacks w
  watch-Delivers callbacks (r ∷ rounds) w h =
      let v = watch_round callbacks r w in
      Delivers-trans callbacks w v (watch callbacks rounds v)
        (watch_round-Delivers callbacks r w h.0) (watch-Delivers callbacks rounds v h.1)

  -- A later watcher, which has seen the blocks up to `last_seen`: a callback has got the ids of the
  -- blocks since, each as often as it was registered.
  pub record Follows (callbacks : List ℕ) (w v : Watcher) : Type 0 where
    pub onward : w.last_seen ≤ v.last_seen
    pub handed :
        (callback : ℕ)
        → ids_for callback v.calls
          ≡ ids_for callback w.calls
            ++ times
                (registered callback callbacks)
                (ids_of block (w.last_seen + 1) (v.last_seen - w.last_seen))

  Delivers-Follows :
      (callbacks : List ℕ) (w v : Watcher) → Delivers callbacks w v → Follows callbacks w v
  Delivers-Follows callbacks w v d = record {
    onward = d.onward;
    handed = λ callback.
        let ids = ids_of block (w.last_seen + 1) (v.last_seen - w.last_seen) in
        ap (λ calls. ids_for callback calls) d.handed
        ∙ ids_for-append callback w.calls (deliver callbacks ids)
        ∙ ap (λ l. ids_for callback w.calls ++ l) (ids_for-deliver callback callbacks ids);
  }

-- The node answers a round, with a head.
abbrev pub Answers : Round → (head : ℕ) → Type 0
Answers r head =
    (r.head ≡ returns head)
    × ((from_block to_block : ℕ)
        → (events : List ℕ) × (r.logs from_block to_block ≡ returns events))

watch_round-last_seen :
    (callbacks : List ℕ) (r : Round) (w : Watcher) (head : ℕ)
    → Answers r head
    → head ≤ (watch_round callbacks r w).last_seen
unfolding watch_round
watch_round-last_seen callbacks r w head (e, answers) =
    let (events, p) = answers (w.last_seen + 1) head in
    elim (Bool-cases (leb head w.last_seen)) [
      | inl old ↦ rw (e, old) (ground (arith, old))
      | inr new ↦ rw (e, new, p) (omega arith)
    ]

-- The watcher has seen the head of every round that the node answered.
abbrev pub CaughtUp : List Round → Watcher → Type 0
CaughtUp rounds v = All (λ r. (head : ℕ) → Answers r head → head ≤ v.last_seen) rounds

module _ (block : ℕ → List ℕ) where
  watch-CaughtUp :
      (callbacks : List ℕ) (rounds : List Round) (w : Watcher)
      → All (Honest block) rounds
      → CaughtUp rounds (watch callbacks rounds w)
  unfolding watch
  watch-CaughtUp callbacks [] w h = tt
  watch-CaughtUp callbacks (r ∷ rounds) w h =
      let v = watch_round callbacks r w in
      let onward = (watch-Delivers block callbacks rounds v h.1).onward in
      (
        λ head a. omega (arith, watch_round-last_seen callbacks r w head a, onward),
        watch-CaughtUp callbacks rounds v h.1,
      )

  -- Where the node's logs of a range are those of its blocks, then after any rounds, whether the
  -- node answers them or not, the watcher has seen at least the head of every round that the node
  -- answered; and a callback that was registered once has been called once with each id that was
  -- revoked in the blocks since, in their order, up to the last block seen, and with nothing else.
  -- One that was registered more often has been called so often with each.
  pub watch-Follows :
      (callbacks : List ℕ) (rounds : List Round) (w : Watcher)
      → All (Honest block) rounds
      → Follows block callbacks w (watch callbacks rounds w)
        × CaughtUp rounds (watch callbacks rounds w)
  watch-Follows callbacks rounds w h = (
    Delivers-Follows block callbacks w (watch callbacks rounds w)
        (watch-Delivers block callbacks rounds w h),
    watch-CaughtUp callbacks rounds w h,
  )
