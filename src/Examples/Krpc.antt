-- ===== src/Examples/Krpc.antt =====
-- src/dht/krpc.rs: the theorems at concrete messages.
use rustytorrent.Base.{◌≡◌, refl, List, [], ◌∷◌, arith, replicate}
use rustytorrent.Base.Outcome.{ok}
use rustytorrent.Net.Screen.{v4, v6, SocketAddr}
use rustytorrent.Dht.Bucket.{Contact}
use rustytorrent.Dht.Krpc.{Message, response, peers_nodes, nodes_to_bytes, compact}
use rustytorrent.Dht.Krpc.Messages.{encode_message, decode}
use rustytorrent.Dht.Krpc.Sendable.{FitsMessage, received}
use rustytorrent.Dht.Krpc.RoundTrip.{decode-encode_message}
use rustytorrent.Dht.Krpc.Sound.{IsMessage, decode-IsMessage}

-- Two contacts, one of IPv6.
abbrev contacts : List (Contact SocketAddr)
contacts =
    record { id = replicate 20 1; addr = record { ip = v4 8 8 4 4; port = 6881 }; last_seen = 0 }
    ∷ record {
      id = replicate 20 2;
      addr = record { ip = v6 1 2 3 4 5 6 7 8; port = 6881 };
      last_seen = 0;
    }
    ∷ []

abbrev dht_reply : Message
dht_reply = response (97 ∷ 97 ∷ []) (peers_nodes (replicate 20 9) (1 ∷ 2 ∷ []) contacts)

dht_reply_fits : FitsMessage dht_reply
unfolding nodes_to_bytes compact
dht_reply_fits = (
  omega arith,
  (refl, omega arith, ((refl, omega arith), ((refl, omega arith), tt)), omega arith),
)

decode-encode_message_example : decode 7 (encode_message dht_reply) ≡ ok (received 7 dht_reply)
decode-encode_message_example = decode-encode_message 7 dht_reply dht_reply_fits

decode-IsMessage_example : IsMessage (received 7 dht_reply)
decode-IsMessage_example =
    decode-IsMessage 7 (encode_message dht_reply) (received 7 dht_reply)
      decode-encode_message_example
