-- ===== src/Storage/Memspool/Task.antt =====
-- src/storage/memspool.rs: the task that serves the spool, with the commands and the events of
-- src/storage/disk.rs. A command channel is the list of the commands that come before it closes;
-- what the task sends is listed in order, and no receiver need be there. The texts of errors are
-- left out.
pub mod Served
use rustytorrent.Base.{ℕ, ◌%◌, ◌^◌, Option, none, some, List, [], ◌∷◌}
use rustytorrent.Base.Outcome.{Result, ok, err}
use rustytorrent.Storage.Layout.{Layout}
use rustytorrent.Storage.Memspool.{MemSpool, new, write_piece, read_range}

-- A read carries the channel for its reply, which is used once.
pub data StorageCommand : Type 0 where
  write : ℕ → List ℕ → StorageCommand
  read : ℕ → ℕ → ℕ → StorageCommand
  shutdown : StorageCommand

pub data StorageEvent : Type 0 where
  written : ℕ → StorageEvent
  error : Option ℕ → StorageEvent

-- An event on the event channel, or the reply to the read.
pub data Output : Type 0 where
  event : StorageEvent → Output
  reply : Result (List ℕ) → Output

unfoldable pub write_event : ℕ → Result (Unit {0}) → StorageEvent
write_event index (ok _) = written index
write_event index (err _) = error (some index)

-- `while let Some(cmd) = cmd_rx.recv().await`.
unfoldable pub serve : MemSpool → List StorageCommand → List Output
unfolding write_piece write_event read_range
serve spool [] = []
serve spool (shutdown ∷ _) = []
serve spool (write index bytes ∷ commands) =
    let r = write_piece spool index bytes in event (write_event index r.1) ∷ serve r.0 commands
serve spool (read index begin n ∷ commands) =
    reply (read_range spool index begin n) ∷ serve spool commands

unfoldable pub run_memspool_storage : Layout → List StorageCommand → List Output
unfolding new serve
run_memspool_storage layout commands =
    serve (new layout.piece_length (layout.num_pieces % 2 ^ 32) layout.total_length) commands
