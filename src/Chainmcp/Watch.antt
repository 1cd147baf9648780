-- ===== src/Chainmcp/Watch.antt =====
-- chainmcp/src/chainmcp/client.py: `_watch_loop`, round by round. What a round reads of the node is
-- its argument: the head, and the ids of the Revoked logs in a range of blocks. A callback is
-- known by a number; what it raises is caught, so a round is the calls that it makes.
pub mod Calls
pub mod Delivery
use a2a_tokenized_provisioni.Base.{
  ℕ, zero, suc, ◌+◌, ◌-◌, ◌≤◌, ◌<◌, ◌≡◌, refl, sym, ap, ◌∙◌, List, [], ◌∷◌, ◌++◌, map, leb, true,
  false, if◌then◌else◌, inl, inr, Bool-cases, arith, Bool,
}
use mathlib.Core.List.{append_assoc}
use a2a_tokenized_provisioni.Chainmcp.Client.{Call, returns, reverts, fails}

pub record Round : Type 0 where
  pub head : Call ℕ
  pub logs : (from_block to_block : ℕ) → Call (List ℕ)

-- `_last_seen`, and the calls made so far: a callback with an id
pub record Watcher : Type 0 where
  pub last_seen : ℕ
  pub calls : List (ℕ × ℕ)

-- the two loops over the events and the callbacks
unfoldable pub deliver : (callbacks events : List ℕ) → List (ℕ × ℕ)
deliver callbacks [] = []
deliver callbacks (id ∷ events) = map (λ c. (c, id)) callbacks ++ deliver callbacks events

-- what follows a good answer of the node
abbrev pub seen : (callbacks : List ℕ) (head : ℕ) → Call (List ℕ) → Watcher → Watcher
seen callbacks head (returns events) w = record {
  last_seen = head;
  calls = w.calls ++ deliver callbacks events;
}
seen callbacks head (reverts name) w = w
seen callbacks head fails w = w

abbrev pub answered : (callbacks : List ℕ) (r : Round) → Call ℕ → Watcher → Watcher
answered callbacks r (returns head) w =
    if leb head w.last_seen then w else seen callbacks head (r.logs (w.last_seen + 1) head) w
answered callbacks r (reverts name) w = w
answered callbacks r fails w = w

-- one round of the loop
unfoldable pub watch_round : (callbacks : List ℕ) → Round → Watcher → Watcher
watch_round callbacks r w = answered callbacks r r.head w

unfoldable pub watch : (callbacks : List ℕ) → List Round → Watcher → Watcher
unfolding watch_round
watch callbacks [] w = w
watch callbacks (r ∷ rounds) w = watch callbacks rounds (watch_round callbacks r w)
