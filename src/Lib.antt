-- ===== src/Lib.antt =====
-- RustyTorrent: the protocol and the bookkeeping of a BitTorrent client, modelled from its sources.
--
-- The client downloads a torrent from its peers. A connection (src/peer/) opens with a handshake,
-- may be enciphered, and then exchanges framed messages over TCP or uTP. The picker
-- (src/piece/picker.rs) says which piece to fetch from a peer; the piece manager
-- (src/piece/manager.rs) hands out its blocks and assembles the ones that arrive; the layout
-- (src/storage/layout.rs) says which bytes of which files a piece is. The choke scheduler
-- (src/scheduler/choke.rs) decides which peers may download from here, and the DHT (src/dht/) finds
-- peers and keeps the nodes it knows in a routing table. The async tasks, the channels and the
-- sockets that connect these parts are not modelled.
--
-- Base: Boolean tests, lists, bytes, maps and results that the parts share. A byte is a natural
--   number below 256, `AreBytes` says so of a list. `Result` has the kinds of src/error.rs, without
--   their texts, and `panicked` for a panic. Maps has association lists for `HashMap`; Decimal has
--   the decimal digits that the sources read and print through the standard library, and ℤ over the
--   native numbers; Text has UTF-8 and, as `codes`, the bytes of a literal.
-- Metainfo/Bencode: src/metainfo/bencode.rs. A value that holds values is a mutual family: `Items`
--   of a list and `Fields` of a dictionary, the sorted entries of a `BTreeMap`. The parser runs on
--   fuel, two for each byte and one more, since each container costs two calls for its opening byte.
-- Peer/Message: src/peer/message.rs. `Message`, `encode`, `decode`, the readers `read_frame` and
--   `read_frame_into` and the writers `write_frame` and `write_message` correspond to the functions
--   of these names. A reader is the list of the bytes it still yields, and a writer gives the bytes
--   it writes. The cast of a length to u32 is `% 2 ^ 32`. Bitfield has the bytes of a bitfield, which
--   is the list of its bits.
-- Peer/Handshake: src/peer/handshake.rs. `perform_outgoing` and `perform_incoming` give the bytes
--   that are sent and the result. The comparison of info hashes, of the crate `subtle`, is a
--   parameter that decides equality (`DecidesEq`).
-- Peer/Mse/Rc4: src/peer/mse/rc4.rs. A `u8` sum is `% 256`. Reference has RC4 as it is published, on
--   functions and the number of the round.
-- Peer/Utp/Packet: src/peer/utp/packet.rs. The loop over the extension chain runs on fuel: the
--   datagram's length, of which each round consumes two.
-- Metainfo/Torrent: src/metainfo/torrent.rs. `from_value` has the checks of an info dictionary, File
--   the whole file, the search for the bytes that are hashed, whose fuel is the input's length, and
--   magnets. SHA-1 is a parameter. `as_str` stands on UTF-8 of Base/Text, paths on the Unix
--   `Path::components` of Storage/Split.
-- Metainfo/Magnet: src/magnet.rs, on the bytes of a URI; `read_pairs` is the loop over the
--   parameters, whose variables are `Params`.
-- Peer/Utp/Ledbat and Peer/Utp/Connection: src/peer/utp/connection.rs. `Connection` is the struct,
--   with its stash `pending_in` as an association list; a call takes the instant at which it is
--   made, in nanoseconds, and `handle_incoming` composes the receiver's parts as the source does.
--   The congestion window is an f64 there: its type and arithmetic are the parameter `Float`. The
--   packets are cut off by `packetize`, whose fuel is the window in packets, and the stash is
--   emptied by `drain`, whose fuel is the number of stashed packets. Runs has any sequence of calls
--   as a step relation, in which the network decides what arrives.
-- Piece: src/piece/manager.rs and picker.rs. Geometry has the sizes of pieces and blocks; Row is
--   the state of one piece, an entry of each of the manager's vectors, with one function for each
--   method where nothing panics; Row/Panics has the same methods with their panics, which are
--   `none`: an index out of range and an overflow; Manager is the manager itself, whose methods look
--   a row up, call the methods of Row/Panics and put it back. Picker is the picker; the shuffle of the crate `rand` is a parameter that
--   keeps the elements (`IsShuffle`).
-- Storage: src/storage/layout.rs. Paths has the checks of names and paths, a path being the list
--   of its components; Layout has the spans of the files, the slices of a range and the selection.
--   Memspool is src/storage/memspool.rs, its Task the task that serves the spool: the commands that
--   its channel delivers are a list, and what it sends is listed in order.
-- Tracker: Udp has the packets of src/tracker/udp.rs. Udp/Exchange is `connect`, `do_announce` and
--   `announce` from the connected socket on: the socket, the clock and the random numbers are a
--   `World`, the rounds of sending and waiting that the loops take one by one. The loops run on the
--   attempts that are left, `MAX_RETRIES` at first. Instants are in seconds. Udp/Target picks the
--   address of a tracker. Dispatch is src/tracker/mod.rs: one announce by the scheme of its URL, and
--   the walk over the tiers, whose early return is the state `found`. The parser of URLs, the
--   resolver and the HTTP tracker are fields of a `Network`. Redact is `redact_url_query`, on the
--   code points of a text.
-- Scheduler/Choke: src/scheduler/choke.rs. The loop over the candidates is `settle`, the random
--   choice a parameter.
-- Dht: src/dht/node_id.rs and src/dht/routing.rs. Bucket is a k-bucket, Routing the table. The
--   reading of the clock is an argument, and the type of addresses is a parameter. Krpc is
--   src/dht/krpc.rs, the messages: the dictionaries are the `Fields` of Metainfo/Bencode, and the
--   compact contacts have the addresses of Net/Screen. Krpc/Messages has `encode_message` and
--   `decode` for `Message::encode` and `Message::decode`.
-- Net/Screen: the filters of addresses in src/util.rs. A URL's host is given as the address that it
--   parses to, or as none for a domain name.
-- Examples: the theorems at concrete inputs.
--
-- Not modelled: sockets, tasks, timers and files; hashing and key exchange; what else is read from
--   bencode (HTTP trackers, extensions); the DHT's server and client and the uTP socket, which are
--   tasks around the messages and the connections; the overall deadline of a walk over the tiers,
--   which cuts off a task; the scrubbing of error texts; the web interface, the command line and
--   the session, which are glue around these parts.
pub mod Base
pub mod Metainfo
pub mod Net
pub mod Peer
pub mod Piece
pub mod Dht
pub mod Storage
pub mod Tracker
pub mod Scheduler
pub mod Examples
