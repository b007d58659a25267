-- ===== src/Copying/Missing.antt =====
-- internal/runner/runner.go, `runCopy`, with internal/backend/backend.go, `Walk`: a root that is missing.
use yggsync.Prelude.{ℕ, suc, ◌≡◌, refl, sym, ◌∙◌, Bool, true, false, [], Text, codes, some, text_eq}
use yggsync.Prelude.Dict.{lookup}
use yggsync.Prelude.Results.{ok, err, not_exist, root_missing, done}
use yggsync.Backend.{Fs, IsLawful}
use yggsync.Backend.Paths.{full}
use yggsync.Backend.Shares.{Share, walk_dir, smb_fs}
use yggsync.Backend.Roots.{Os, walk, local_fs}
use yggsync.Worktree.State.{FileState, Snapshot}
use yggsync.Copying.{mirror}
use yggsync.Copying.Mirror.{mirror-read}
use yggsync.Copying.Scan.{scan_fs, scan_dest, run_copy}

abbrev nothing : Snapshot
nothing = record { files = []; dirs = [] }

-- A source that looks empty empties the destination of a sync job.
module _ (L R : Fs) (law : IsLawful R) (matches : Text → Bool) (l : L.State) where
  run_copy-mirror :
      (r : R.State) (remote_snap : Snapshot)
      → scan_fs matches L l ≡ (nothing, done)
      → scan_dest matches R r ≡ ok remote_snap
      → run_copy L R matches l true false r ≡ mirror L R l true nothing remote_snap false r
  unfolding run_copy
  run_copy-mirror r remote_snap empty scanned = rw (empty, scanned) refl

  empty_source_deletes :
      (r r' : R.State) (remote_snap : Snapshot) (q : Text) {st : FileState}
      → scan_fs matches L l ≡ (nothing, done)
      → scan_dest matches R r ≡ ok remote_snap
      → lookup q remote_snap.files ≡ some st
      → run_copy L R matches l true false r ≡ (done, r')
      → R.read r' q ≡ err not_exist
  unfolding lookup
  empty_source_deletes r r' remote_snap q {st = st} empty scanned there h =
      mirror-read L R law l nothing remote_snap true r r'
        (sym (run_copy-mirror r remote_snap empty scanned) ∙ h) q
      ∙ rw there refl

module _ (share : Share) (base : Text) (fuel : ℕ) (s : share.State) where
  scan_fs-missing :
      (matches : Text → Bool)
      → share.read_dir s (full base (codes ".")) ≡ err not_exist
      → scan_fs matches (smb_fs share base (suc fuel)) s ≡ (nothing, done)
  unfolding scan_fs walk_dir
  scan_fs-missing matches h = rw h refl

  -- A sync job from a share whose root is missing, where it succeeds and is no dry run, deletes the files
  -- that the scan of its destination has found.
  pub missing_source_deletes :
      (R : Fs) (law : IsLawful R) (matches : Text → Bool) (r r' : R.State) (remote_snap : Snapshot)
      (q : Text) {st : FileState}
      → share.read_dir s (full base (codes ".")) ≡ err not_exist
      → scan_dest matches R r ≡ ok remote_snap
      → lookup q remote_snap.files ≡ some st
      → run_copy (smb_fs share base (suc fuel)) R matches s true false r ≡ (done, r')
      → R.read r' q ≡ err not_exist
  missing_source_deletes R law matches r r' remote_snap q {st = st} h =
      empty_source_deletes (smb_fs share base (suc fuel)) R law matches s r r' remote_snap q
        {st = st} (scan_fs-missing matches h)

module _ (os : Os) (root : Text) (s : os.State) where
  -- A local root that is missing fails a run as its source, before the destination is touched, and is
  -- empty as its destination.
  pub missing_root :
      (R : Fs) (matches : Text → Bool) (is_sync dry_run : Bool) (r : R.State)
      → os.stat s root ≡ err not_exist
      → (run_copy (local_fs os root) R matches s is_sync dry_run r ≡ (err root_missing, r))
        × (scan_dest matches (local_fs os root) s ≡ ok nothing)
  unfolding run_copy scan_dest scan_fs walk
  missing_root R matches is_sync dry_run r h = (rw h refl, rw h refl)
