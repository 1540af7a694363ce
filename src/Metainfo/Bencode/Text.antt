-- ===== src/Metainfo/Bencode/Text.antt =====
-- src/metainfo/bencode.rs: byte strings that are read as text.
use rustytorrent.Base.{ℕ, List, if◌then◌else◌}
use rustytorrent.Base.Text.{is_utf8}
use rustytorrent.Base.Outcome.{Error, Result, ok, err, ◌>>=◌}
use rustytorrent.Metainfo.Bencode.{BencodeValue, as_bytes}

unfoldable pub as_str : BencodeValue → Result (List ℕ)
unfolding as_bytes is_utf8
as_str v = as_bytes v >>= λ b. if is_utf8 b then ok b else err Error.bencode
