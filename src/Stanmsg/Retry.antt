-- ===== src/Stanmsg/Retry.antt =====
-- stanmsg/durconn.go: the loop of subscribeAll, round by round. Stanmsg has the same loop as single
-- steps between which other goroutines run; here the answers are given and the loop is a function.
pub mod Laws
pub mod Steps
use nproto.Prelude.{
  Bool, true, false, ◌&&◌, if◌then◌else◌, Option, none, some, List, [], ◌∷◌, ◌++◌, ℕ, zero, suc,
  ◌+◌,
}
use nproto.Stanmsg.{Key}

-- One round over the subscriptions with their success flags: the flags after it, the subscriptions
-- that it made, and whether it returned on a closed scStaleCh.
pub record Round : Type 0 where
  pub flags : List (Key × Bool)
  pub made : List Key
  pub stopped : Bool

-- An entry before those of the rest of the round.
abbrev pub keep : Key × Bool → Round → Round
keep entry r = record r { flags = entry ∷ r.flags }

-- `answers` says which calls of subscribe succeed, `stale` for which of these scStaleCh is closed
-- right after.
unfoldable pub subscribe_round : (Key → Bool) → (Key → Bool) → List (Key × Bool) → Round
subscribe_round answers stale [] = record { flags = []; made = []; stopped = false }
subscribe_round answers stale ((k, true) ∷ ks) = keep (k, true) (subscribe_round answers stale ks)
subscribe_round answers stale ((k, false) ∷ ks) =
    let rest = subscribe_round answers stale ks in
    if answers k
    then (if stale k
        then record { flags = (k, true) ∷ ks; made = k ∷ []; stopped = true }
        else record {
          flags = (k, true) ∷ rest.flags;
          made = k ∷ rest.made;
          stopped = rest.stopped;
        })
    else keep (k, false) rest

-- n >= len(subs)
unfoldable pub all_done : List (Key × Bool) → Bool
all_done [] = true
all_done (p ∷ ps) = p.1 && all_done ps

pub data Ended : Type 0 where
  all_made : Ended
  went_stale : Ended

unfoldable pub after_round : List Key → Option (Ended × List Key) → Option (Ended × List Key)
after_round made none = none
after_round made (some (e, later)) = some (e, made ++ later)

module _ (answers stale : ℕ → Key → Bool) (stale_wait : ℕ → Bool) where
  -- The loop from round i on, for at most `fuel` rounds: how it ends and what it has made; `none` if
  -- it is still at work. stale_wait says in which waits between rounds scStaleCh is closed.
  unfoldable pub subscribe_all : ℕ → ℕ → List (Key × Bool) → Option (Ended × List Key)
  unfolding subscribe_round all_done after_round
  subscribe_all zero i flags = none
  subscribe_all (suc fuel) i flags =
      let r = subscribe_round (answers i) (stale i) flags in
      let rest = subscribe_all fuel (i + 1) r.flags in
      if r.stopped
      then some (went_stale, r.made)
      else (if all_done r.flags
          then some (all_made, r.made)
          else (if stale_wait i then some (went_stale, r.made) else after_round r.made rest))
