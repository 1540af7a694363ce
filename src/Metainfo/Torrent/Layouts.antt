-- ===== src/Metainfo/Torrent/Layouts.antt =====
-- src/metainfo/torrent.rs with src/storage/layout.rs: torrents that are accepted have a layout.
use rustytorrent.Base.{◌≡◌, ◌≢◌, false, List, [], ◌∷◌, All}
use rustytorrent.Base.Outcome.{ok}
use rustytorrent.Storage.Paths.{Component, PathBuf, normal, is_windows_reserved}
use rustytorrent.Storage.Layout.{FileEntry, TorrentFiles, single, multi, Info, Layout, from_torrent}
use rustytorrent.Storage.Layout.Acceptance.{IsSafeEntry, AreSafe, from_torrent_accepts}
use rustytorrent.Storage.Layout.Contiguity.{IsPlain}
use rustytorrent.Metainfo.Bencode.{BencodeValue}
use rustytorrent.Metainfo.Torrent.{from_value}
use rustytorrent.Metainfo.Torrent.Checks.{IsSafePart, IsSafeFile, HasSafeFiles, from_value-IsSound}

-- A component that is no device of Windows.
abbrev pub IsNoDevice : Component → Type 0
IsNoDevice (normal s) = is_windows_reserved s ≡ false
IsNoDevice _ = Unit

-- The name and the paths name no device of Windows, and no path is empty.
abbrev pub HasNoDevices : TorrentFiles → Type 0
HasNoDevices (single n) = Unit
HasNoDevices (multi es) = All (λ e. All IsNoDevice e.path × (e.path ≢ [])) es

IsPlain-path : (p : PathBuf) → All IsSafePart p → All IsNoDevice p → All IsPlain p
IsPlain-path [] safe fine = tt
IsPlain-path (normal s ∷ p) safe fine = (fine.0, IsPlain-path p safe.1 fine.1)
IsPlain-path (_ ∷ p) safe fine = absurd safe.0

safe_entries :
    (es : List FileEntry)
    → All IsSafeFile es
    → All (λ e. All IsNoDevice e.path × (e.path ≢ [])) es
    → All IsSafeEntry es
safe_entries [] safe fine = tt
safe_entries (e ∷ es) safe fine =
    ((IsPlain-path e.path safe.0 fine.0.0, fine.0.1), safe_entries es safe.1 fine.1)

safe_files : (files : TorrentFiles) → HasSafeFiles files → HasNoDevices files → AreSafe files
safe_files (single n) safe fine = tt
safe_files (multi es) safe fine = safe_entries es safe fine

-- A torrent's info that is accepted has a layout below every root, unless it names a device of
-- Windows or has a file without a path: the checks of the layout refuse nothing else.
pub from_value-from_torrent :
    (v : BencodeValue) (t : Info) (root : PathBuf)
    → from_value v ≡ ok t
    → All IsNoDevice t.name
    → HasNoDevices t.files
    → (l : Layout) × (from_torrent root t ≡ ok l)
from_value-from_torrent v t root accepted fine devices =
    let sound = from_value-IsSound v t accepted in
    let (part, is_name, safe) = sound.0 in
    let named = rw is_name at fine in
    let (total, sum, _, _, _) = sound.4 in
    from_torrent_accepts root t part total is_name named.0 sum (safe_files t.files sound.1 devices)
