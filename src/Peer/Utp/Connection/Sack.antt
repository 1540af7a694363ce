-- ===== src/Peer/Utp/Connection/Sack.antt =====
-- src/peer/utp/connection.rs: the selective acknowledgement, `build_sack` and `process_sack`.
use Prim.Native.Nat.{bit_or}
use rustytorrent.Base.{
  ℕ, zero, suc, ◌+◌, ◌-◌, ◌*◌, ◌/◌, ◌%◌, ◌^◌, min, Bool, true, false, ◌&&◌, List, [], ◌∷◌, ◌++◌,
  Option, none, some, ltb, leb, ◌==◌, if◌then◌else◌, length, is_empty, get_or, set, replicate,
}
use rustytorrent.Base.Maps.{Map}
use rustytorrent.Peer.Utp.Packet.{Extension, Payload}
use rustytorrent.Peer.Utp.Connection.{Connection, InFlight, wrapping_add, wrapping_sub}

abbrev pub ext_selective_ack : ℕ
ext_selective_ack = 1

abbrev pub max_sack_bytes : ℕ
max_sack_bytes = 64

-- `Vec::resize` to a length that is not smaller.
unfoldable pub resize : List ℕ → ℕ → List ℕ
resize mask n = mask ++ replicate (n - length mask) 0

-- `mask[byte] |= 1 << bit`.
unfoldable pub set_bit : List ℕ → ℕ → ℕ → List ℕ
set_bit mask byte bit = set mask byte (bit_or (get_or mask byte 0) (2 ^ bit))

-- The mask with the bit at `offset`, grown if need be; what lies past 64 bytes is left out.
unfoldable pub mark : List ℕ → ℕ → List ℕ
unfolding resize set_bit
mark mask offset =
    let byte = offset / 8 in
    let grown = resize mask (min ((byte / 4 + 1) * 4) max_sack_bytes) in
    if leb max_sack_bytes byte
    then mask
    else if ltb byte (length mask)
    then set_bit mask byte (offset % 8)
    else if leb (length grown) byte
    then grown
    else set_bit grown byte (offset % 8)

-- A key one ahead of the frontier has no bit.
unfoldable pub mark_key : ℕ → List ℕ → ℕ → List ℕ
unfolding mark
mark_key frontier mask logical =
    if ltb (logical - frontier) 2 then mask else mark mask (logical - frontier - 2)

unfoldable pub mask_of : ℕ → List ℕ → Map Payload → List ℕ
unfolding mark_key
mask_of frontier mask [] = mask
mask_of frontier mask ((logical, p) ∷ m) = mask_of frontier (mark_key frontier mask logical) m

unfoldable pub all_zero : List ℕ → Bool
all_zero [] = true
all_zero (b ∷ bs) = (b == 0) && all_zero bs

-- `(mask[byte] >> bit) & 1 == 1`, for a byte inside the mask.
unfoldable pub has_bit : List ℕ → ℕ → Bool
has_bit mask offset =
    ltb (offset / 8) (length mask) && (get_or mask (offset / 8) 0 / 2 ^ (offset % 8) % 2 == 1)

-- The packets that stay in flight, and the bytes of those that were acknowledged.
unfoldable pub prune : ℕ → List ℕ → List InFlight → List InFlight × ℕ
unfolding has_bit wrapping_sub
prune base mask [] = ([], 0)
prune base mask (e ∷ es) =
    let rest = prune base mask es in
    if has_bit mask (wrapping_sub e.seq_nr base)
    then (rest.0, e.packet.payload.len + rest.1)
    else (e ∷ rest.0, rest.1)

-- `count_ones` of a number below 2 ^ n.
unfoldable pub count_ones : ℕ → ℕ → ℕ
count_ones zero b = 0
count_ones (suc n) b = b % 2 + count_ones n (b / 2)

unfoldable pub sacked_count : List ℕ → ℕ
unfolding count_ones
sacked_count [] = 0
sacked_count (b ∷ bs) = count_ones 8 b + sacked_count bs

unfoldable pub is_some_of : Option ℕ → ℕ → Bool
is_some_of none n = false
is_some_of (some m) n = m == n

module _ {F : Type 0} where
  unfoldable pub build_sack : Connection F → Option Extension
  unfolding mask_of all_zero
  build_sack c =
      let mask = mask_of c.peer_logical_acked (replicate 4 0) c.pending_in in
      if is_empty c.pending_in
      then none
      else if all_zero mask
      then none
      else some (record { kind = ext_selective_ack; body = mask })

  -- The lowest packet that is not acknowledged is sent again, once for each gap.
  unfoldable pub schedule_gap : Connection F → List InFlight → Connection F
  unfolding is_some_of
  schedule_gap c [] = c
  schedule_gap c (front ∷ rest) =
      if is_some_of c.last_fast_rtx_seq front.seq_nr
      then c
      else record c { fast_rtx_seq = some front.seq_nr; last_fast_rtx_seq = some front.seq_nr }

  -- The connection and the bytes that were acknowledged.
  unfoldable pub process_sack : Connection F → ℕ → List ℕ → Connection F × ℕ
  unfolding prune sacked_count schedule_gap wrapping_add
  process_sack c ack_nr mask =
      let pruned = prune (wrapping_add ack_nr 2) mask c.in_flight in
      let kept = record c { in_flight = pruned.0 } in
      (if leb 3 (sacked_count mask) then schedule_gap kept pruned.0 else kept, pruned.1)
