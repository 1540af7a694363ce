-- ===== src/Scheduler/Choke.antt =====
-- src/scheduler/choke.rs: `ChokeScheduler`.
-- An address is a number and an instant a number of nanoseconds; the clock's reading `now` is an
-- argument, and `rand`'s choice of an element is a parameter. The source panics where an instant
-- would lie before the clock's start or a sum of bytes passes 64 bits.
pub mod Settle
pub mod Slots
use rustytorrent.Base.{
  ℕ, zero, suc, ◌+◌, ◌-◌, ◌*◌, ◌^◌, Bool, true, false, not, ◌&&◌, ◌||◌, Option, none, some, List,
  [], ◌∷◌, ◌++◌, ltb, leb, ◌==◌, if◌then◌else◌, take,
}
use rustytorrent.Base.Maps.{Map, lookup, remove, insert}

-- `Duration::from_secs`.
abbrev pub from_secs : ℕ → ℕ
from_secs n = n * 10 ^ 9

abbrev pub optimistic_interval : ℕ
optimistic_interval = from_secs 30

abbrev pub rate_window : ℕ
rate_window = from_secs 20

abbrev pub snub_threshold : ℕ
snub_threshold = from_secs 60

abbrev pub regular_unchoke_slots : ℕ
regular_unchoke_slots = 3

pub record ChokeScheduler : Type 0 where
  pub samples : Map (List (ℕ × ℕ))
  pub last_block : Map ℕ
  pub unchoked : Map Bool
  pub optimistic : Option ℕ
  pub last_optimistic_tick : ℕ
  pub seeding : Bool

pub record ChokeDecision : Type 0 where
  pub to_unchoke : List ℕ
  pub to_choke : List ℕ
  pub optimistic : Option ℕ

unfoldable pub new : ℕ → ChokeScheduler
new now = record {
  samples = [];
  last_block = [];
  unchoked = [];
  optimistic = none;
  last_optimistic_tick = now;
  seeding = false;
}

unfoldable pub set_seeding : ChokeScheduler → Bool → ChokeScheduler
set_seeding s seeding = record s { seeding = seeding }

-- `entry(addr).or_default()`.
unfoldable pub or_default : Option (List (ℕ × ℕ)) → List (ℕ × ℕ)
or_default none = []
or_default (some q) = q

-- The loop that drops the samples from before the cutoff.
unfoldable pub pop_old : ℕ → List (ℕ × ℕ) → List (ℕ × ℕ)
pop_old cutoff [] = []
pop_old cutoff ((t, b) ∷ q) =
    let rest = pop_old cutoff q in if ltb t cutoff then rest else (t, b) ∷ q

-- The part that `record_download` and `record_upload` share.
unfoldable pub record_upload : ChokeScheduler → ℕ → ℕ → ℕ → ChokeScheduler
unfolding or_default pop_old lookup insert
record_upload s addr bytes now = record s {
  samples =
      insert addr
        (pop_old (now - rate_window) (or_default (lookup addr s.samples) ++ (now, bytes) ∷ []))
        s.samples;
}

unfoldable pub record_download : ChokeScheduler → ℕ → ℕ → ℕ → ChokeScheduler
unfolding record_upload insert
record_download s addr bytes now = record (record_upload s addr bytes now) {
  last_block = insert addr now s.last_block;
}

unfoldable pub is_addr : ℕ → Option ℕ → Bool
is_addr addr none = false
is_addr addr (some a) = a == addr

unfoldable pub forget : ChokeScheduler → ℕ → ChokeScheduler
unfolding remove is_addr
forget s addr = record s {
  samples = remove addr s.samples;
  last_block = remove addr s.last_block;
  unchoked = remove addr s.unchoked;
  optimistic = if is_addr addr s.optimistic then none else s.optimistic;
}

unfoldable pub sum_bytes : List (ℕ × ℕ) → ℕ
sum_bytes [] = 0
sum_bytes ((t, b) ∷ q) = b + sum_bytes q

unfoldable pub rate_for : ChokeScheduler → ℕ → ℕ
unfolding sum_bytes or_default lookup
rate_for s addr = sum_bytes (or_default (lookup addr s.samples))

snubbed_since : ℕ → Option ℕ → Bool
snubbed_since now none = true
snubbed_since now (some t) = ltb snub_threshold (now - t)

unfoldable pub is_snubbed : ChokeScheduler → ℕ → ℕ → Bool
unfolding snubbed_since lookup
is_snubbed s now addr = snubbed_since now (lookup addr s.last_block)

unfoldable pub contains : List ℕ → ℕ → Bool
contains [] a = false
contains (x ∷ xs) a = x == a || contains xs a

-- The candidates that may have a regular slot, with their rates.
unfoldable pub eligible : ChokeScheduler → ℕ → List ℕ → List (ℕ × ℕ)
unfolding is_snubbed rate_for
eligible s now [] = []
eligible s now (a ∷ as_) =
    let rest = eligible s now as_ in
    if not (is_snubbed s now a) || s.seeding then (a, rate_for s a) ∷ rest else rest

-- `sort_by_key` by the rate, highest first; it is stable.
unfoldable pub insert_ranked : ℕ × ℕ → List (ℕ × ℕ) → List (ℕ × ℕ)
insert_ranked e [] = e ∷ []
insert_ranked e (d ∷ ds) =
    let rest = insert_ranked e ds in if leb d.1 e.1 then e ∷ (d ∷ ds) else d ∷ rest

unfoldable pub rank : List (ℕ × ℕ) → List (ℕ × ℕ)
unfolding insert_ranked
rank [] = []
rank (e ∷ es) = insert_ranked e (rank es)

unfoldable pub addresses : List (ℕ × ℕ) → List ℕ
addresses [] = []
addresses ((a, r) ∷ es) = a ∷ addresses es

unfoldable pub regular : ChokeScheduler → ℕ → List ℕ → List (ℕ × ℕ)
unfolding eligible rank
regular s now candidates = take regular_unchoke_slots (rank (eligible s now candidates))

-- The optimistic peer joins the chosen ones if it is not among them.
unfoldable pub with_optimistic : List ℕ → Option ℕ → List ℕ
unfolding contains
with_optimistic chosen none = chosen
with_optimistic chosen (some opt) = if contains chosen opt then chosen else chosen ++ opt ∷ []

unfoldable pub is_unchoked : Option Bool → Bool
is_unchoked none = false
is_unchoked (some b) = b

pub record Settled : Type 0 where
  pub to_unchoke : List ℕ
  pub to_choke : List ℕ
  pub unchoked : Map Bool

-- The loop of `tick` over the candidates; what it pushes comes before what it pushes later.
unfoldable pub settle : List ℕ → List ℕ → Map Bool → Settled
unfolding contains is_unchoked lookup insert
settle chosen [] m = record { to_unchoke = []; to_choke = []; unchoked = m }
settle chosen (a ∷ as_) m =
    let want = contains chosen a in
    let have = is_unchoked (lookup a m) in
    let m' =
      if want && not have
      then insert a true m
      else if not want && have
      then insert a false m
      else m in
    let rest = settle chosen as_ m' in
    record rest {
      to_unchoke = if want && not have then a ∷ rest.to_unchoke else rest.to_unchoke;
      to_choke = if not want && have then a ∷ rest.to_choke else rest.to_choke;
    }

or_else : Option ℕ → Option ℕ → Option ℕ
or_else none old = old
or_else (some pick) old = some pick

is_none : Option ℕ → Bool
is_none none = true
is_none (some a) = false

unfoldable pub chosen_by : ChokeScheduler → ℕ → List ℕ → List ℕ
unfolding regular addresses with_optimistic
chosen_by s now candidates = with_optimistic (addresses (regular s now candidates)) s.optimistic

module _ (choose : List ℕ → Option ℕ) where
  unfoldable pub rotate : ChokeScheduler → ℕ → List ℕ → ChokeScheduler
  unfolding or_else is_none
  rotate s now candidates =
      if leb optimistic_interval (now - s.last_optimistic_tick) || is_none s.optimistic
      then record s {
        last_optimistic_tick = now;
        optimistic = or_else (choose candidates) s.optimistic;
      }
      else s

  unfoldable pub tick : ChokeScheduler → ℕ → List ℕ → ChokeScheduler × ChokeDecision
  unfolding rotate chosen_by settle
  tick s now candidates =
      let s' = rotate s now candidates in
      let settled = settle (chosen_by s' now candidates) candidates s'.unchoked in
      (
        record s' { unchoked = settled.unchoked },
        record {
          to_unchoke = settled.to_unchoke;
          to_choke = settled.to_choke;
          optimistic = s'.optimistic;
        },
      )
