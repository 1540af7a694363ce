-- ===== src/Examples/Session.antt =====
-- src/peer/handshake.rs and src/peer/mse/rc4.rs: the theorems, at concrete handshakes and keys.
use rustytorrent.Base.{
  ℕ, ◌≡◌, refl, true, Option, none, some, List, [], ◌∷◌, ◌++◌, replicate, ap, sym, ◌∙◌,
}
use rustytorrent.Base.Bytes.{bytes_eq→eq, bytes_eq_refl, bytes_eq}
use rustytorrent.Base.Text.{codes}
use rustytorrent.Base.Outcome.{ok}
use rustytorrent.Peer.Handshake.{Handshake, new, encode, decode, perform_outgoing, perform_incoming}
use rustytorrent.Peer.Handshake.Codec.{IsWellTyped}
use rustytorrent.Peer.Handshake.Exchange.{DecidesEq, handshakes_meet}
use rustytorrent.Peer.Mse.Rc4
use rustytorrent.Peer.Mse.Rc4.{Rc4 as Cipher, process}
use rustytorrent.Peer.Mse.Rc4.Reference.{enciphered, process-enciphered}

abbrev torrent : List ℕ
torrent = replicate 20 7

abbrev client_a : Handshake
client_a = new none torrent (replicate 20 1)

abbrev client_b : Handshake
client_b = new (some (replicate 8 4)) torrent (replicate 20 2)

client_a-IsWellTyped : IsWellTyped client_a
unfolding new
client_a-IsWellTyped = record { reserved_len = refl; info_hash_len = refl; peer_id_len = refl }

client_b-IsWellTyped : IsWellTyped client_b
unfolding new
client_b-IsWellTyped = record { reserved_len = refl; info_hash_len = refl; peer_id_len = refl }

-- The comparison of byte slices decides their equality.
bytes_eq-DecidesEq : DecidesEq bytes_eq
bytes_eq-DecidesEq a b = (bytes_eq→eq a b, λ e. ap (bytes_eq a) (sym e) ∙ bytes_eq_refl a)

client_a_decodes : decode (encode client_a) ≡ ok client_a
unfolding new encode decode bytes_eq
client_a_decodes = refl

handshakes_meet_example :
    let a =
      perform_outgoing bytes_eq none torrent (replicate 20 1) true (encode client_b ++ 9 ∷ []) in
    let b =
      perform_incoming bytes_eq
        (some (replicate 8 4))
        torrent
        (replicate 20 2)
        true
        (a.0 ++ 8 ∷ []) in
    (b.0 ≡ encode client_b) × (a.1 ≡ ok (client_b, 9 ∷ [])) × (b.1 ≡ ok (client_a, 8 ∷ []))
handshakes_meet_example =
    handshakes_meet bytes_eq bytes_eq-DecidesEq none (some (replicate 8 4)) torrent (replicate 20 1)
      (replicate 20 2) (8 ∷ []) (9 ∷ []) client_a-IsWellTyped client_b-IsWellTyped

abbrev secret : List ℕ
secret = codes "Key"

abbrev under : Option Cipher → List ℕ → List ℕ
under none data_ = []
under (some c) data_ = (process c data_).1

-- The published test vector, which is a test of the source's, too.
plaintext_enciphered :
    under (Rc4.new secret) (codes "Plaintext")
    ≡ (187 ∷ 243 ∷ 22 ∷ 232 ∷ 217 ∷ 64 ∷ 175 ∷ 10 ∷ 211 ∷ [])
unfolding Rc4.new Rc4.step process
plaintext_enciphered = refl

process-enciphered_example :
    (c : Cipher) × (Rc4.new secret ≡ some c)
    × ((process (Rc4.skip c 1024) (codes "Plaintext")).1
        ≡ enciphered secret 1024 (codes "Plaintext"))
process-enciphered_example = process-enciphered 75 (101 ∷ 121 ∷ []) 1024 (codes "Plaintext")
