-- ===== src/Ledger.antt =====
-- internal/ledger/ledger.go: the records of the ledger, its file names, and its JSON.
pub mod Paths
pub mod Storage
pub mod Blobs
pub mod Lock
pub mod Collection
use yggsync.Prelude.{ℕ, ◌≡◌, List, [], Text, codes, ◌==◌, if◌then◌else◌, Option, some}
use yggsync.Prelude.Int.{ℤ, pos, int_eq}
use yggsync.Prelude.Dict.{Dict}

abbrev pub format_version : ℤ
format_version = pos 3

pub record FileEntry : Type 0 where
  pub hash : Text
  pub size : ℕ
  pub mod_time : ℤ
  pub gen : ℤ
  pub updated_by : Text

pub record Tombstone : Type 0 where
  pub gen : ℤ
  pub last_hash : Text
  pub deleted_by : Text
  pub deleted_at : ℤ

pub record ClientCursor : Type 0 where
  pub last_gen : ℤ
  pub last_seen : ℤ

-- A nil map is the empty one.
pub record Ledger : Type 0 where
  pub format : ℤ
  pub generation : ℤ
  pub files : Dict Text FileEntry
  pub tombstones : Dict Text Tombstone
  pub clients : Dict Text ClientCursor

-- `New`
abbrev pub empty : Ledger
empty = record {
  format = format_version;
  generation = pos 0;
  files = [];
  tombstones = [];
  clients = [];
}

-- `ensureMaps`; the maps need nothing here.
unfoldable pub ensure_maps : Ledger → Ledger
ensure_maps l = if l.format == pos 0 then record l { format = format_version } else l

pub record LockInfo : Type 0 where
  pub client : Text
  pub at : ℤ

-- `encoding/json` at the two types that the code stores.
pub record Json : Type 0 where
  pub marshal : Ledger → Text
  pub unmarshal : Text → Option Ledger
  pub marshal_lock : LockInfo → Text
  pub unmarshal_lock : Text → Option LockInfo

-- The JSON of this ledger reads back as the ledger: so it is where its strings are valid UTF-8.
abbrev pub RoundTrips : Json → Ledger → Type 0
RoundTrips json l = json.unmarshal (json.marshal l) ≡ some l
