-- ===== src/Peer/Utp/Ledbat.antt =====
-- src/peer/utp/connection.rs: `Ledbat`, the congestion controller.
--
-- The window is an `f64` in the source. Its type `F` and the arithmetic on it, the record `Float`,
-- are parameters; the base delay, which is computed on integers, is not. Instants and durations are
-- numbers of nanoseconds.
pub mod BaseDelay
use rustytorrent.Base.{
  ℕ, zero, suc, ◌+◌, ◌-◌, ◌*◌, ◌/◌, ◌%◌, ◌^◌, min, max, Bool, true, false, not, ◌||◌, List, [], ◌∷◌,
  ◌++◌, Option, none, some, ltb, leb, ◌==◌, if◌then◌else◌, length, drop,
}

-- What `new`, `on_ack` and `window_packets` compute on `cwnd_bytes`.
pub record Float (F : Type 0) : Type 0 where
  -- the initial window
  pub initial : F
  -- the window after an ack: its queuing delay, the bytes it acked and the peer's window
  pub grown : F → ℕ → ℕ → ℕ → F
  -- `(cwnd_bytes / MAX_DATA_PAYLOAD) as usize`
  pub packets : F → ℕ

abbrev pub base_delay_slot : ℕ
base_delay_slot = 60 * 10 ^ 9

abbrev pub base_delay_slots : ℕ
base_delay_slots = 13

pub record Ledbat (F : Type 0) : Type 0 where
  pub cwnd_bytes : F
  pub fixed_floor : Option ℕ
  pub base_history : List ℕ
  pub cur_slot_start : Option ℕ
  pub has_sample : Bool

-- `VecDeque::push_back`.
unfoldable pub push_back {ℓ} : {A : Type ℓ} → List A → A → List A
push_back xs a = xs ++ a ∷ []

-- `back_mut`: the newest slot takes the smaller value, or a first one is opened.
unfoldable pub fold_newest : List ℕ → ℕ → List ℕ
fold_newest [] sample = sample ∷ []
fold_newest (x ∷ []) sample = min x sample ∷ []
fold_newest (x ∷ y ∷ ys) sample = x ∷ fold_newest (y ∷ ys) sample

-- The loop that opens `n` new slots and retires old ones.
unfoldable pub open_slots : ℕ → List ℕ → ℕ → List ℕ
unfolding push_back
open_slots zero history sample = history
open_slots (suc n) history sample =
    let pushed = push_back history sample in
    open_slots n (if ltb base_delay_slots (length pushed) then drop 1 pushed else pushed) sample

-- `Iterator::min`.
unfoldable pub minimum : List ℕ → Option ℕ
minimum [] = none
minimum (x ∷ xs) = elim (minimum xs) [ none ↦ some x | some m ↦ some (min x m) ]

unfoldable pub unwrap_or : Option ℕ → ℕ → ℕ
unwrap_or none d = d
unwrap_or (some a) d = a

unfoldable pub floor_of : Option ℕ → ℕ → ℕ
floor_of none sample = sample
floor_of (some f) sample = min f sample

-- How many slots have passed since `start`; the division is by whole seconds.
unfoldable pub slots_passed : ℕ → ℕ → ℕ
slots_passed start now = max ((now - start) / 10 ^ 9 / 60) 1

-- The history and the start of the newest slot after a sample.
unfoldable pub slots_after : Option ℕ → List ℕ → ℕ → ℕ → List ℕ × Option ℕ
unfolding push_back open_slots fold_newest slots_passed
slots_after none history sample now = (push_back history sample, some now)
slots_after (some start) history sample now =
    if leb base_delay_slot (now - start)
    then (
      open_slots (slots_passed start now) history sample,
      some (start + base_delay_slot * (slots_passed start now % 2 ^ 32)),
    )
    else (fold_newest history sample, some start)

module _ {F : Type 0} where
  -- The controller after the sample, and the base delay.
  unfoldable pub update_base : Ledbat F → ℕ → ℕ → Ledbat F × ℕ
  unfolding floor_of slots_after minimum unwrap_or
  update_base cc sample now =
      let floor = floor_of cc.fixed_floor sample in
      let slots = slots_after cc.cur_slot_start cc.base_history sample now in
      (
        record cc { fixed_floor = some floor; base_history = slots.0; cur_slot_start = slots.1 },
        max (unwrap_or (minimum slots.0) floor) floor,
      )

  unfoldable pub new : Float F → Ledbat F
  new float = record {
    cwnd_bytes = float.initial;
    fixed_floor = none;
    base_history = [];
    cur_slot_start = none;
    has_sample = false;
  }

  unfoldable pub on_ack : Float F → Ledbat F → ℕ → ℕ → ℕ → ℕ → Ledbat F
  unfolding update_base
  on_ack float cc sample bytes_acked peer_wnd now =
      let based = update_base (record cc { has_sample = true }) sample now in
      if (sample == 0) || (bytes_acked == 0) then cc else record (based.0) {
        cwnd_bytes = float.grown cc.cwnd_bytes (sample - based.1) bytes_acked peer_wnd;
      }

  unfoldable pub window_packets : Float F → Ledbat F → Option ℕ
  window_packets float cc =
      if not cc.has_sample then none else some (max (float.packets cc.cwnd_bytes) 2)
