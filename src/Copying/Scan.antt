-- ===== src/Copying/Scan.antt =====
-- internal/runner/runner.go: `scanFS` without hashes, `scanDest`, and `runCopy` once the job is open.
use yggsync.Prelude.{Bool, not, List, [], ◌∷◌, Text, if◌then◌else◌, text_eq}
use yggsync.Prelude.Dict.{insert}
use yggsync.Prelude.Results.{root_missing, Result, ok, err, Done, Action, resume}
use yggsync.Backend.{Entry, Fs}
use yggsync.Worktree.State.{Snapshot}
use yggsync.Copying.{stat_state, mirror}

-- The callback of the walk; `matches` is `Matcher.Match`, and paths have no backslash on Unix.
unfoldable pub scan_step : (Text → Bool) → Snapshot → Entry → Snapshot
unfolding insert
scan_step matches snap e =
    if not (matches e.path)
    then snap
    else if e.is_dir
    then record snap { dirs = insert e.path (record { mode = e.mode }) snap.dirs }
    else record snap { files = insert e.path (stat_state e) snap.files }

unfoldable pub scan_loop : (Text → Bool) → Snapshot → List Entry → Snapshot
unfolding scan_step
scan_loop matches snap [] = snap
scan_loop matches snap (e ∷ es) = scan_loop matches (scan_step matches snap e) es

-- What was scanned, and how the walk ended.
unfoldable pub scan_fs : (Text → Bool) → (F : Fs) → F.State → Snapshot × Done
unfolding scan_loop
scan_fs matches F s =
    let found = F.walk s in (scan_loop matches (record { files = []; dirs = [] }) found.0, found.1)

abbrev pub ended : Snapshot × Done → Result Snapshot
ended (snap, ok _) = ok snap
ended (snap, err e) = err e

-- A destination whose root is missing is empty.
abbrev tolerant : Snapshot × Done → Result Snapshot
tolerant (snap, ok _) = ok snap
tolerant (snap, err root_missing) = ok snap
tolerant (snap, err other) = err other

unfoldable pub scan_dest : (Text → Bool) → (F : Fs) → F.State → Result Snapshot
unfolding scan_fs
scan_dest matches F s = tolerant (scan_fs matches F s)

unfoldable pub run_copy :
    (L : Fs) (R : Fs) → (Text → Bool) → L.State → Bool → Bool → Action R.State (Unit {0})
unfolding scan_fs scan_dest mirror
run_copy L R matches l is_sync dry_run r =
    resume (ended (scan_fs matches L l), r)
      (λ local_snap s.
        resume (scan_dest matches R s, s)
          (λ remote_snap. mirror L R l is_sync local_snap remote_snap dry_run))
