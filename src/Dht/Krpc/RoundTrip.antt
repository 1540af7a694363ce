-- ===== src/Dht/Krpc/RoundTrip.antt =====
-- src/dht/krpc.rs: what is sent is what is received.
use rustytorrent.Base.{ℕ, ◌≡◌, []}
use rustytorrent.Base.Outcome.{ok}
use rustytorrent.Metainfo.Bencode.RoundTrip.{parse_all-to_bytes}
use rustytorrent.Dht.Krpc.{Message, query, response, error}
use rustytorrent.Dht.Krpc.Messages.{message_dict, encode_message, decode_value, whole_value, decode}
use rustytorrent.Dht.Krpc.Sendable.{FitsMessage, received, encode-to_bytes}
use rustytorrent.Dht.Krpc.Reading.{decode_value-query, decode_value-response, decode_value-error}
use rustytorrent.Dht.Krpc.Shape.{message_dict-IsFlat}

decode_value-message_dict :
    (now : ℕ) (m : Message)
    → FitsMessage m
    → decode_value now (message_dict m) ≡ ok (received now m)
decode_value-message_dict now (query t q) h = decode_value-query now t q h.1
decode_value-message_dict now (response t r) h = decode_value-response now t r h.1
decode_value-message_dict now (error t code text) h = decode_value-error now t code text h.3

-- A DHT message of identifiers of 20 bytes, ports of 16 bits and strings of representable length
-- is decoded from its encoding as it was, but for the contacts and addresses that are not of IPv4
-- or have port zero: they are lost, and the others are kept in order.
pub decode-encode_message :
    (now : ℕ) (m : Message) → FitsMessage m → decode now (encode_message m) ≡ ok (received now m)
unfolding decode encode_message whole_value
decode-encode_message now m h =
    let flat = message_dict-IsFlat m h in
    let whole = (parse_all-to_bytes (message_dict m) [] flat.0 flat.1).0 in
    rw (encode-to_bytes (message_dict m), whole) (decode_value-message_dict now m h)
