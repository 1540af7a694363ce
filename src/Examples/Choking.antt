-- ===== src/Examples/Choking.antt =====
-- src/scheduler/choke.rs: the theorems on a tick, at three peers.
use rustytorrent.Base.{ℕ, ◌≡◌, true, false, Option, none, some, List, [], ◌∷◌, if◌then◌else◌}
use rustytorrent.Scheduler.Choke.{ChokeScheduler, contains, rotate, chosen_by, tick, from_secs}
use rustytorrent.Scheduler.Choke.Settle.{unchoked_in, tick_settles}

abbrev some_first : List ℕ → Option ℕ
some_first [] = none
some_first (a ∷ as_) = some a

abbrev now : ℕ
now = from_secs 100

abbrev three_peers : List ℕ
three_peers = 1 ∷ 2 ∷ 3 ∷ []

abbrev busy : ChokeScheduler
busy = record {
  samples = (1, (now, 500) ∷ []) ∷ (2, (now, 900) ∷ []) ∷ [];
  last_block = (1, now) ∷ (2, now) ∷ [];
  unchoked = (3, true) ∷ [];
  optimistic = none;
  last_optimistic_tick = now;
  seeding = false;
}

tick_settles_example : unchoked_in (tick some_first busy now three_peers).0.unchoked 3 ≡ (
    if contains three_peers 3
    then contains (chosen_by (rotate some_first busy now three_peers) now three_peers) 3
    else unchoked_in busy.unchoked 3)
tick_settles_example = tick_settles some_first busy now three_peers 3
