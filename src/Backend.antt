-- ===== src/Backend.antt =====
-- internal/backend/backend.go: `Entry`, the interface `FS`, and what its clients rely on.
pub mod Memory
pub mod Paths
pub mod Roots
pub mod Sessions
pub mod Shares
use yggsync.Prelude.Int.{ℤ, sub_ℕ}
use yggsync.Prelude.{ℕ, ◌/◌, ◌≡◌, ◌≢◌, Bool, List, Text, Option, text_eq, ◌==◌, if◌then◌else◌}
use yggsync.Prelude.Results.{Error, not_exist, Result, ok, err, Done, done, Action}

-- A `time.Time`: nanoseconds since Go's zero time, the start of the year 1.
abbrev pub Time : Type 0
Time = ℕ

-- `t.Unix()`
unfoldable pub unix : Time → ℤ
unix t = sub_ℕ (t / 1000000000) 62135596800

pub record Entry : Type 0 where
  pub path : Text
  pub size : ℕ
  pub mode : ℕ
  pub mod_time : Time
  pub is_dir : Bool

-- An `os.FileInfo`, a time in it as UTC and a mode as its permissions.
pub record FileInfo : Type 0 where
  pub name : Text
  pub size : ℕ
  pub mode : ℕ
  pub mod_time : Time
  pub is_dir : Bool

abbrev pub entry_of : Text → FileInfo → Entry
entry_of rel info = record {
  path = rel;
  size = info.size;
  mode = info.mode;
  mod_time = info.mod_time;
  is_dir = info.is_dir;
}

-- The methods of `FS` that the rest of the program calls. `read` is `OpenReader` with `io.ReadAll`; where
-- that fails, `delivered` is what the reader has given before, if the file could be opened, and `write_part`
-- is `WriteFile` with a reader that gives a content and then fails with an error.
-- `walk` gives the entries that the callback sees, while it returns no error, and how the walk then ends;
-- `stopped` is what the walk returns where the callback has returned an error, which ends it.
pub record Fs : Type 1 where
  pub State : Type 0
  pub read : State → Text → Result Text
  pub delivered : State → Text → Option Text
  pub stat : State → Text → Result Entry
  pub walk : State → List Entry × Done
  pub stopped : Error → Done
  pub write_file : Text → Text → ℕ → Time → Action State (Unit {0})
  pub write_part : Text → Text → ℕ → Error → Action State (Unit {0})
  pub mkdir_all : Text → ℕ → Action State (Unit {0})
  pub remove : Text → Action State (Unit {0})
  pub rename : Text → Text → Action State (Unit {0})

-- What a client reads back. A call that fails may leave its own target in any state, but for
-- `rename`, which then changes nothing; no call touches another file.
pub record IsLawful (F : Fs) : Type 0 where
  pub read-write_file :
      (p c : Text) (m : ℕ) (t : Time) (s s' : F.State)
      → F.write_file p c m t s ≡ (done, s')
      → (q : Text) → F.read s' q ≡ (if q == p then ok c else F.read s q)
  pub write_file_frame :
      (p c : Text) (m : ℕ) (t : Time) (s : F.State) (q : Text)
      → q ≢ p
      → F.read (F.write_file p c m t s).1 q ≡ F.read s q
  pub read-remove :
      (p : Text) (s s' : F.State)
      → F.remove p s ≡ (done, s')
      → (q : Text) → F.read s' q ≡ (if q == p then err not_exist else F.read s q)
  pub remove_frame :
      (p : Text) (s : F.State) (q : Text) → q ≢ p → F.read (F.remove p s).1 q ≡ F.read s q
  pub read-rename :
      (o n : Text) (s s' : F.State)
      → o ≢ n
      → F.rename o n s ≡ (done, s')
      → (q : Text)
      → F.read s' q ≡ (if q == n then F.read s o else if q == o then err not_exist else F.read s q)
  pub rename_failed :
      (o n : Text) (s s' : F.State) (e : Error)
      → F.rename o n s ≡ (err e, s')
      → (q : Text) → F.read s' q ≡ F.read s q
  pub read-mkdir_all :
      (p : Text) (m : ℕ) (s : F.State) (q : Text) → F.read (F.mkdir_all p m s).1 q ≡ F.read s q
  pub stat_absent :
      (s : F.State) (p : Text) → F.read s p ≡ err not_exist → (e : Error) × (F.stat s p ≡ err e)
