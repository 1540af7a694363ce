-- ===== src/Peer/Utp/Connection/Runs.antt =====
-- src/peer/utp/connection.rs: the calls on a connection, as steps, and what a driver can reach.
use rustytorrent.Base.{ℕ, List, [], ◌++◌}
use rustytorrent.Peer.Utp.Ledbat.{Float}
use rustytorrent.Peer.Utp.Packet.{Packet}
use rustytorrent.Peer.Utp.Connection.{Connection, enqueue_send_block, take_received, close}
use rustytorrent.Peer.Utp.Connection.Incoming.{handle_incoming}
use rustytorrent.Peer.Utp.Connection.Outgoing.{pending_send_packets, tick}

module _ {F : Type 0} (float : Float F) (Allowed : Connection F → Packet → Type 0) where
  -- A call, with the bytes that the application reads in it. `Allowed` says what the network may
  -- bring.
  pub data Step : Connection F → List ℕ → Connection F → Type 0 where
    receives :
        (c : Connection F) (p : Packet) (now : ℕ)
        → Allowed c p
        → Step c [] (handle_incoming float c p now).0
    reads : (c : Connection F) (n : ℕ) → Step c (take_received c n).1 (take_received c n).0
    sends : (c : Connection F) (now : ℕ) → Step c [] (pending_send_packets float c now).0
    ticks : (c : Connection F) (now : ℕ) → Step c [] (tick c now).0
    writes : (c : Connection F) (block : List ℕ) → Step c [] (enqueue_send_block c block).0
    closes : (c : Connection F) → Step c [] (close c)

  -- From one connection, having read some bytes, to another.
  pub data Run (first : Connection F) : List ℕ → Connection F → Type 0 where
    here : Run first [] first
    next :
        {taken bytes : List ℕ} {c d : Connection F}
        → Run first taken c
        → Step c bytes d
        → Run first (taken ++ bytes) d
