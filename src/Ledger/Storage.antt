-- ===== src/Ledger/Storage.antt =====
-- internal/ledger/ledger.go: `Load`, `readLedger` and `Save`.
pub mod Laws
pub mod Failures
pub mod Frame
use yggsync.Prelude.{ℕ, Text, codes, Option, none, some}
use yggsync.Prelude.Results.{
  Error, not_exist, failed, Result, ok, err, Done, done, then_result, Action, ◌>>=◌, ◌>>◌, ignore,
  pure,
}
use yggsync.Backend.{Time, Fs}
use yggsync.Ledger.{Ledger, Json, empty, ensure_maps, format_version}
use yggsync.Ledger.Paths.{join, ledger_file, bak_file, tmp_file}

abbrev pub dir_mode : ℕ
dir_mode = 0o755

abbrev pub file_mode : ℕ
file_mode = 0o644

-- What `Save` writes.
unfoldable pub stamped : Ledger → Ledger
unfolding ensure_maps
stamped l = record (ensure_maps l) { format = format_version }

module _ (F : Fs) (json : Json) where
  abbrev parsed : Text → Result Ledger
  parsed raw = elim (json.unmarshal raw) [
    | none ↦ err (failed (codes "invalid JSON"))
    | some l ↦ ok l
  ]

  unfoldable pub read_ledger : F.State → Text → Result Ledger
  read_ledger s rel = then_result (F.read s rel) parsed

  -- The ledger from the backup, or else the second argument.
  abbrev or_backup : Result Ledger → Result Ledger → Result Ledger
  or_backup (ok l) otherwise = ok (ensure_maps l)
  or_backup (err e) otherwise = otherwise

  -- The branches of `Load`, from what it reads of the primary and of the backup.
  abbrev pub choose : Result Ledger → Result Ledger → Result Ledger
  choose (ok l) backup = ok (ensure_maps l)
  choose (err not_exist) backup = or_backup backup (ok empty)
  choose (err other) backup =
      or_backup backup (err (failed (codes "ledger unreadable and no valid backup")))

  unfoldable pub load : Text → F.State → Result Ledger
  unfolding read_ledger ensure_maps
  load dir s = choose (read_ledger s (join dir ledger_file)) (read_ledger s (join dir bak_file))

  -- The rotation of the current ledger to the backup.
  unfoldable pub rotate : Text → Action F.State (Unit {0})
  rotate dir s = elim (F.stat s (join dir ledger_file)) [
    | ok _ ↦
        (do
          ignore (F.remove (join dir bak_file))
          F.rename (join dir ledger_file) (join dir bak_file))
          s
    | err _ ↦ (done, s)
  ]

  unfoldable pub save : Text → Time → Ledger → Action F.State (Unit {0})
  unfolding rotate stamped
  save dir now l = do
    F.mkdir_all dir dir_mode
    F.write_file (join dir tmp_file) (json.marshal (stamped l)) file_mode now
    rotate dir
    F.rename (join dir tmp_file) (join dir ledger_file)
