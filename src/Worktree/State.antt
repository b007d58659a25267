-- ===== src/Worktree/State.antt =====
-- internal/runner: `FileState`, `Snapshot`, `wtReconciler` and the helpers on hashes.
use yggsync.Prelude.{ℕ, Bool, List, [], Text, Option, none, some}
use yggsync.Prelude.{◌==◌, text_eq, nat_eq, if◌then◌else◌}
use yggsync.Prelude.Int.{ℤ}
use yggsync.Prelude.Dict.{Dict}
use yggsync.Prelude.Results.{Action}
use yggsync.Backend.{Time, Fs}
unfoldable pub use yggsync.Backend.{unix}
use yggsync.Ledger.{FileEntry, Tombstone}

pub record FileState : Type 0 where
  pub size : ℕ
  pub mode : ℕ
  pub mod_time : Time
  pub hash : Text

-- The zero value, which a map gives for a key that it lacks.
abbrev pub zero_state : FileState
zero_state = record { size = 0; mode = 0; mod_time = 0; hash = [] }

pub record DirState : Type 0 where
  pub mode : ℕ

pub record Snapshot : Type 0 where
  pub files : Dict Text FileState
  pub dirs : Dict Text DirState

-- The two replicas, the hexadecimal SHA-256 of a content, and `now.Format("20060102-150405")`.
pub record Env : Type 1 where
  pub local : Fs
  pub remote : Fs
  pub sha256_hex : Text → Text
  pub format_stamp : Time → Text

-- The fields of `wtReconciler` that a run does not change; `wall` is the clock that `PutBlob` reads.
pub record Setup : Type 0 where
  pub local_snap : Snapshot
  pub remote_snap : Snapshot
  pub gen : ℤ
  pub client_id : Text
  pub cursor : ℤ
  pub now : Time
  pub wall : Time
  pub dry_run : Bool
  pub no_merge : Bool

-- What a run changes: both replicas and the rest of `wtReconciler`.
pub record World (E : Env) : Type 0 where
  pub local : E.local.State
  pub remote : E.remote.State
  pub files : Dict Text FileEntry
  pub tombs : Dict Text Tombstone
  pub conflicts : List Text

unfoldable pub hash_of : Option FileState → Text
hash_of none = []
hash_of (some st) = st.hash

unfoldable pub entry_hash : Option FileEntry → Text
entry_hash none = []
entry_hash (some e) = e.hash

abbrev pub state_of : Option FileState → FileState
state_of none = zero_state
state_of (some st) = st

-- `if t.IsZero() { t = now }`
unfoldable pub time_or : Time → Time → Time
time_or t now = if t == 0 then now else t

-- An action on one replica, within the run.
abbrev pub on_local : {E : Env} {A : Type 0} → Action E.local.State A → Action (World E) A
on_local m w = let r = m w.local in (r.0, record w { local = r.1 })

abbrev pub on_remote : {E : Env} {A : Type 0} → Action E.remote.State A → Action (World E) A
on_remote m w = let r = m w.remote in (r.0, record w { remote = r.1 })
