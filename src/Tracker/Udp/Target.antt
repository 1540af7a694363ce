-- ===== src/Tracker/Udp/Target.antt =====
-- src/tracker/udp.rs: from the URL of a tracker to the exchange with it.
--
-- Name resolution and the opening of the socket are the `Host`. The order of socket addresses is the
-- one of `std::net`, on the addresses and ports of Net/Screen.
pub mod Choice
mod Order
mod Sorted
use rustytorrent.Base.{ℕ, Bool, true, false, List, [], ◌∷◌, ltb, ◌==◌, ◌!=◌, if◌then◌else◌}
use rustytorrent.Base.Text.{codes}
use rustytorrent.Base.Outcome.{Error, Result, ok, err, ◌>>=◌, ◌>>◌, to_err}
use rustytorrent.Net.Screen.{IpAddr, v4, v6, SocketAddr, filter_dialable_addrs}
use rustytorrent.Metainfo.Magnet.{strip_prefix}
use rustytorrent.Tracker.Udp.{AnnounceRequest, AnnounceResponse}
use rustytorrent.Tracker.Udp.Exchange
use rustytorrent.Tracker.Udp.Exchange.{World}

-- The version, the octets or segments, the port: the order goes by the first that differs.
unfoldable pub parts : SocketAddr → List ℕ
parts addr = of_ip addr.ip
  where
    of_ip : IpAddr → List ℕ
    of_ip (v4 a b c d) = 4 ∷ a ∷ b ∷ c ∷ d ∷ addr.port ∷ []
    of_ip (v6 a b c d e f g h) = 6 ∷ a ∷ b ∷ c ∷ d ∷ e ∷ f ∷ g ∷ h ∷ addr.port ∷ []

unfoldable pub lex_le : List ℕ → List ℕ → Bool
lex_le [] ys = true
lex_le (x ∷ xs) [] = false
lex_le (x ∷ xs) (y ∷ ys) = if x == y then lex_le xs ys else ltb x y

unfoldable pub addr_le : SocketAddr → SocketAddr → Bool
unfolding parts lex_le
addr_le a b = lex_le (parts a) (parts b)

unfoldable pub insert_addr : SocketAddr → List SocketAddr → List SocketAddr
unfolding addr_le
insert_addr a [] = a ∷ []
insert_addr a (b ∷ bs) = let rest = insert_addr a bs in if addr_le a b then a ∷ b ∷ bs else b ∷ rest

-- `addrs.sort()`.
unfoldable pub sort_addrs : List SocketAddr → List SocketAddr
unfolding insert_addr
sort_addrs [] = []
sort_addrs (a ∷ addrs) = insert_addr a (sort_addrs addrs)

-- `kept[0]`.
unfoldable pub first : List SocketAddr → Result SocketAddr
first [] = err Error.panicked
first (a ∷ _) = ok a

unfoldable pub pick_udp_addr : List SocketAddr → Result SocketAddr
unfolding sort_addrs filter_dialable_addrs first
pick_udp_addr addrs = filter_dialable_addrs (sort_addrs addrs) false >>= first

-- What stands before the first slash.
unfoldable pub before_slash : List ℕ → List ℕ
before_slash [] = []
before_slash (c ∷ s) = let rest = before_slash s in if c == 47 then [] else c ∷ rest

pub record Host : Type 0 where
  -- `tokio::net::lookup_host`.
  pub lookup_host : List ℕ → Result (List SocketAddr)
  -- The socket is bound, to an interface if one is given, and connected to the address.
  pub bound : SocketAddr → Result (Unit {0})

unfoldable pub target_of : Host → List ℕ → Result SocketAddr
unfolding to_err strip_prefix before_slash pick_udp_addr
target_of host url = to_err Error.tracker (strip_prefix (codes "udp://") url) >>= λ rest.
    to_err Error.tracker (host.lookup_host (before_slash rest)) >>= pick_udp_addr

unfoldable pub announce : Host → World → List ℕ → AnnounceRequest → Result AnnounceResponse
unfolding target_of Exchange.announce to_err
announce host w url req = target_of host url >>= λ addr.
    to_err Error.tracker (host.bound addr) >> (Exchange.announce w req).result
