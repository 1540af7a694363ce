-- ===== src/Examples/Dialling.antt =====
-- src/util.rs: the screens at concrete addresses.
use rustytorrent.Base.{◌≡◌, ◌↔◌, true, false, arith, All}
use rustytorrent.Net.Screen.{v4, is_dialable_ip}
use rustytorrent.Net.Screen.Blocks.{
  number, Outside, refused_blocks, private_blocks, is_dialable_ip_iff,
}

is_dialable_ip_iff_example : (is_dialable_ip (v4 192 168 1 7) false ≡ true) ↔ (
    All (Outside (number 192 168 1 7)) refused_blocks
    × (false ≡ true → All (Outside (number 192 168 1 7)) private_blocks))
is_dialable_ip_iff_example =
    is_dialable_ip_iff 192 168 1 7 false (omega arith) (omega arith) (omega arith) (omega arith)
