-- ===== src/Examples/Memory.antt =====
-- src/storage/memspool.rs: the theorem on the task that serves the spool, at a torrent of two pieces.
use rustytorrent.Base.{◌≡◌, List, [], ◌∷◌, arith}
use rustytorrent.Storage.Layout.{Layout}
use rustytorrent.Storage.Memspool.Task.{StorageCommand, write, read, shutdown, run_memspool_storage}
use rustytorrent.Storage.Memspool.Task.Served.{answers, run_memspool_storage-answers}

abbrev small_torrent : Layout
small_torrent = record { root = []; files = []; piece_length = 4; total_length = 7; num_pieces = 2 }

-- A read too early, a piece of the wrong size, the last piece, and a range of it.
abbrev commands : List StorageCommand
commands =
    read 1 0 2
    ∷ write 1 (1 ∷ 2 ∷ 3 ∷ 4 ∷ [])
    ∷ write 1 (5 ∷ 6 ∷ 7 ∷ [])
    ∷ read 1 1 2
    ∷ write 2 (1 ∷ 2 ∷ 3 ∷ 4 ∷ [])
    ∷ shutdown
    ∷ read 1 0 3
    ∷ []

run_memspool_storage-answers_example :
    run_memspool_storage small_torrent commands ≡ answers small_torrent [] commands
run_memspool_storage-answers_example =
    run_memspool_storage-answers small_torrent commands (omega arith)
