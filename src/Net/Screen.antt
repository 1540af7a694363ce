-- ===== src/Net/Screen.antt =====
-- src/util.rs: which addresses may be dialled.
--
-- The predicates on addresses are those of `std::net`. A host of a URL is given as the address that
-- it parses to, or as none for a domain name.
pub mod Blocks
pub mod Policy
use rustytorrent.Base.{
  ℕ, ◌+◌, ◌*◌, ◌/◌, ◌%◌, Bool, true, false, not, ◌&&◌, ◌||◌, List, [], ◌∷◌, Option, none, some, leb,
  ◌==◌, if◌then◌else◌, is_empty, bit_and,
}
use rustytorrent.Base.Outcome.{Error, Result, ok, err}

-- Four octets or eight segments.
pub data IpAddr : Type 0 where
  v4 : ℕ → ℕ → ℕ → ℕ → IpAddr
  v6 : ℕ → ℕ → ℕ → ℕ → ℕ → ℕ → ℕ → ℕ → IpAddr

pub record SocketAddr : Type 0 where
  pub ip : IpAddr
  pub port : ℕ

-- `to_ipv4_mapped`, applied to the IPv6 addresses: `::ffff:a.b.c.d` becomes `a.b.c.d`.
unfoldable pub canonical : IpAddr → IpAddr
canonical (v4 a b c d) = v4 a b c d
canonical (v6 a b c d e f g h) =
    if (a == 0) && ((b == 0) && ((c == 0) && ((d == 0) && ((e == 0) && (f == 0xffff)))))
    then v4 (g / 256) (g % 256) (h / 256) (h % 256)
    else v6 a b c d e f g h

unfoldable pub is_loopback : IpAddr → Bool
is_loopback (v4 a b c d) = a == 127
is_loopback (v6 a b c d e f g h) =
    (a == 0)
    && ((b == 0) && ((c == 0) && ((d == 0) && ((e == 0) && ((f == 0) && ((g == 0) && (h == 1)))))))

unfoldable pub is_unspecified : IpAddr → Bool
is_unspecified (v4 a b c d) = (a == 0) && ((b == 0) && ((c == 0) && (d == 0)))
is_unspecified (v6 a b c d e f g h) =
    (a == 0)
    && ((b == 0) && ((c == 0) && ((d == 0) && ((e == 0) && ((f == 0) && ((g == 0) && (h == 0)))))))

unfoldable pub is_multicast : IpAddr → Bool
is_multicast (v4 a b c d) = leb 224 a && leb a 239
is_multicast (v6 a b c d e f g h) = a / 256 == 0xff

unfoldable pub is_broadcast : ℕ → ℕ → ℕ → ℕ → Bool
is_broadcast a b c d = (a == 255) && ((b == 255) && ((c == 255) && (d == 255)))

unfoldable pub is_link_local : ℕ → ℕ → Bool
is_link_local a b = (a == 169) && (b == 254)

unfoldable pub is_documentation : ℕ → ℕ → ℕ → Bool
is_documentation a b c =
    ((a == 192) && ((b == 0) && (c == 2)))
    || (((a == 198) && ((b == 51) && (c == 100))) || ((a == 203) && ((b == 0) && (c == 113))))

unfoldable pub is_private : ℕ → ℕ → Bool
is_private a b = (a == 10) || (((a == 172) && (leb 16 b && leb b 31)) || ((a == 192) && (b == 168)))

unfoldable pub cgnat : ℕ → ℕ → Bool
cgnat a b = (a == 100) && (leb 64 b && leb b 127)

unfoldable pub benchmarking : ℕ → ℕ → Bool
benchmarking a b = (a == 198) && (leb 18 b && leb b 19)

unfoldable pub reserved : ℕ → ℕ → ℕ → ℕ → Bool
unfolding is_broadcast
reserved a b c d = (bit_and a 0xf0 == 240) && not (is_broadcast a b c d)

unfoldable pub this_network : ℕ → Bool
this_network a = a == 0

unfoldable pub ietf_protocols : ℕ → ℕ → ℕ → Bool
ietf_protocols a b c = (a == 192) && ((b == 0) && (c == 0))

unfoldable pub six_to_four_relay : ℕ → ℕ → ℕ → Bool
six_to_four_relay a b c = (a == 192) && ((b == 88) && (c == 99))

-- The ranges that are refused of IPv4.
unfoldable pub refused_v4 : Bool → ℕ → ℕ → ℕ → ℕ → Bool
unfolding is_broadcast is_link_local cgnat benchmarking is_documentation reserved this_network
    ietf_protocols six_to_four_relay is_private
refused_v4 strict a b c d =
    is_broadcast a b c d
    || (is_link_local a b
        || (cgnat a b
            || (benchmarking a b
                || (is_documentation a b c
                    || (reserved a b c d
                        || (this_network a
                            || (ietf_protocols a b c
                                || (six_to_four_relay a b c || (strict && is_private a b)))))))))

-- The ranges that are accepted of IPv6, in the order of the source.
unfoldable pub accepted_v6 : Bool → ℕ → ℕ → ℕ → ℕ → ℕ → ℕ → ℕ → Bool
accepted_v6 strict a b c d e f g =
    let nat64 = (a == 0x64) && ((b == 0xff9b) && ((c == 0) && (d == 0))) in
    let nat64_local_use = (a == 0x64) && ((b == 0xff9b) && (c == 1)) in
    let six_to_four = a == 0x2002 in
    let teredo = (a == 0x2001) && (b == 0) in
    let doc6 = (a == 0x2001) && (b == 0xdb8) in
    let zeronet6 =
      (a == 0) && ((b == 0) && ((c == 0) && ((d == 0) && ((e == 0) && ((f == 0) && (g == 0)))))) in
    let discard_only = (a == 0x100) && ((b == 0) && ((c == 0) && (d == 0))) in
    let ietf_protocols6 = (a == 0x2001) && (b == 1) in
    let benchmarking6 = (a == 0x2001) && ((b == 2) && (c == 0)) in
    let orchid = (a == 0x2001) && (bit_and b 0xfff0 == 0x10) in
    let amt = (a == 0x2001) && (b == 3) in
    let as112v6 = (a == 0x2001) && ((b == 4) && (c == 0x112)) in
    let orchid_v2 = (a == 0x2001) && (bit_and b 0xfff0 == 0x20) in
    let drone_rta = (a == 0x2001) && (bit_and b 0xfff0 == 0x30) in
    let is_unicast_link_local = bit_and a 0xffc0 == 0xfe80 in
    let is_unique_local = bit_and a 0xfe00 == 0xfc00 in
    not nat64
    && (not nat64_local_use
        && (not six_to_four
            && (not teredo
                && (not doc6
                    && (not ietf_protocols6
                        && (not benchmarking6
                            && (not orchid
                                && (not amt
                                    && (not as112v6
                                        && (not orchid_v2
                                            && (not drone_rta
                                                && (not zeronet6
                                                    && (not discard_only
                                                        && (not is_unicast_link_local
                                                            && not (
                                                            strict && is_unique_local)))))))))))))))

unfoldable pub accepted : Bool → IpAddr → Bool
unfolding refused_v4 accepted_v6
accepted strict (v4 a b c d) = not (refused_v4 strict a b c d)
accepted strict (v6 a b c d e f g h) = accepted_v6 strict a b c d e f g

unfoldable pub is_dialable_ip : IpAddr → Bool → Bool
unfolding canonical is_loopback is_unspecified is_multicast accepted
is_dialable_ip addr strict =
    let ip = canonical addr in
    if is_loopback ip || (is_unspecified ip || is_multicast ip) then false else accepted strict ip

unfoldable pub is_dialable_peer_addr : SocketAddr → Bool → Bool
unfolding is_dialable_ip
is_dialable_peer_addr addr strict = is_dialable_ip addr.ip strict

unfoldable pub is_dialable_resolved_ip : IpAddr → Bool → Bool
unfolding canonical is_loopback is_dialable_ip
is_dialable_resolved_ip addr strict =
    let ip = canonical addr in if is_loopback ip then true else is_dialable_ip ip strict

unfoldable pub is_dialable_url_host : Option IpAddr → Bool → Bool
unfolding canonical is_loopback is_dialable_ip
is_dialable_url_host none strict = true
is_dialable_url_host (some parsed) strict =
    let ip = canonical parsed in if is_loopback ip then true else is_dialable_ip ip strict

unfoldable pub kept_addrs : Bool → List SocketAddr → List SocketAddr
unfolding is_dialable_resolved_ip
kept_addrs strict [] = []
kept_addrs strict (a ∷ addrs) =
    let rest = kept_addrs strict addrs in
    if is_dialable_resolved_ip a.ip strict then a ∷ rest else rest

unfoldable pub filter_dialable_addrs : List SocketAddr → Bool → Result (List SocketAddr)
unfolding kept_addrs
filter_dialable_addrs addrs strict =
    let kept = kept_addrs strict addrs in if is_empty kept then err Error.tracker else ok kept

unfoldable pub is_safe_dial_target : SocketAddr → Bool → Bool
unfolding is_loopback is_dialable_peer_addr
is_safe_dial_target addr strict =
    if is_loopback addr.ip then true else is_dialable_peer_addr addr strict
