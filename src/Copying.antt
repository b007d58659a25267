-- ===== src/Copying.antt =====
-- internal/runner/runner.go: the steps of copy, sync and retained_copy jobs.
pub mod Missing
pub mod Mirror
pub mod Safety
pub mod Scan
pub mod Candidates
pub mod Retained
use yggsync.Prelude.{
  ℕ, ◌+◌, ◌-◌, Bool, true, false, not, ◌&&◌, List, [], ◌∷◌, Text, Option, none, some,
}
use yggsync.Prelude.{◌==◌, text_eq, nat_eq, if◌then◌else◌, leb}
use yggsync.Prelude.Dict.{Dict, lookup, keys}
use yggsync.Prelude.Sorting.{sort, member}
use yggsync.Prelude.Results.{
  Error, fail, Result, ok, err, Done, done, Action, ◌>>=◌, ◌>>◌, pure, resume, then_result,
  for_each,
}
use yggsync.Backend.{Time, Entry, Fs}
use yggsync.Worktree.State.{FileState, DirState, Snapshot, state_of}

-- A `time.Duration` is an int64: `Sub` stops at its least value, which is its own negation.
abbrev pub least_duration : ℕ
least_duration = 9223372036854775808

-- `d := a.Sub(b); if d < 0 { d = -d }; d <= 2*time.Second`
unfoldable pub same_time : Time → Time → Bool
same_time a b =
    if leb b a
    then leb (a - b) 2000000000
    else if leb least_duration (b - a)
    then true
    else leb (b - a) 2000000000

unfoldable pub same_file : FileState → FileState → Bool
unfolding same_time
same_file a b =
    if not (a.size == b.size)
    then false
    else if not (same_time a.mod_time b.mod_time)
    then false
    else not (not (a.hash == []) && (not (b.hash == []) && not (a.hash == b.hash)))

-- What `statFile` makes of an entry; `mode` of an entry is its permissions.
abbrev pub stat_state : Entry → FileState
stat_state e = record { size = e.size; mode = e.mode; mod_time = e.mod_time; hash = [] }

unfoldable pub stat_file : (F : Fs) → F.State → Text → Result FileState
stat_file F s rel = then_result (F.stat s rel) (λ e. ok (stat_state e))

abbrev dir_mode : Option DirState → ℕ
dir_mode none = 0
dir_mode (some d) = d.mode

-- `createDirs`
unfoldable pub create_dirs : (D : Fs) → Snapshot → Bool → Action D.State (Unit {0})
unfolding for_each sort lookup keys
create_dirs D snap dry_run =
    for_each (λ dir. if dry_run then pure tt else D.mkdir_all dir (dir_mode (lookup dir snap.dirs)))
      (sort (keys snap.dirs))

module _ (S : Fs) (D : Fs) (s : S.State) where
  -- Where the file cannot be opened, nothing is written; where its reading fails, a part of it is.
  abbrev copy_part : Text → FileState → Error → Option Text → Action D.State (Unit {0})
  copy_part rel st e none = fail e
  copy_part rel st e (some part) = D.write_part rel part st.mode e >> fail e

  abbrev pub copy_read : Text → FileState → Result Text → Action D.State (Unit {0})
  copy_read rel st (ok content) = D.write_file rel content st.mode st.mod_time
  copy_read rel st (err e) = copy_part rel st e (S.delivered s rel)

  unfoldable pub copy_file : Text → FileState → Action D.State (Unit {0})
  copy_file rel st = copy_read rel st (S.read s rel)

  abbrev unchanged : FileState → Option FileState → Bool
  unchanged st none = false
  unchanged st (some dst) = same_file st dst

  unfoldable pub copy_changed : Snapshot → Snapshot → Bool → Text → Action D.State (Unit {0})
  unfolding copy_file lookup same_file
  copy_changed src_snap dst_snap dry_run rel =
      let st = state_of (lookup rel src_snap.files) in
      if unchanged st (lookup rel dst_snap.files)
      then pure tt
      else if dry_run
      then pure tt
      else copy_file rel st

  unfoldable pub copy_missing_or_changed : Snapshot → Snapshot → Bool → Action D.State (Unit {0})
  unfolding copy_changed for_each sort keys
  copy_missing_or_changed src_snap dst_snap dry_run =
      for_each (copy_changed src_snap dst_snap dry_run) (sort (keys src_snap.files))

-- The paths of the first map that the second lacks.
unfoldable pub extra : Dict Text FileState → Dict Text FileState → List Text
unfolding lookup
extra [] local_files = []
extra ((p, _) ∷ d) local_files =
    let rest = extra d local_files in
    elim (lookup p local_files) [ none ↦ p ∷ rest | some _ ↦ rest ]

unfoldable pub delete_missing_remote :
    (R : Fs) → Snapshot → Snapshot → Bool → Action R.State (Unit {0})
unfolding for_each sort extra
delete_missing_remote R local_snap remote_snap dry_run =
    for_each (λ rel. if dry_run then pure tt else R.remove rel)
      (sort (extra remote_snap.files local_snap.files))

-- `runCopy` after the two scans, for a job of type copy or sync.
unfoldable pub mirror :
    (L : Fs) (R : Fs) → L.State → Bool → Snapshot → Snapshot → Bool → Action R.State (Unit {0})
unfolding create_dirs copy_missing_or_changed delete_missing_remote
mirror L R l is_sync local_snap remote_snap dry_run = do
  create_dirs R local_snap dry_run
  copy_missing_or_changed L R l local_snap remote_snap dry_run
  if is_sync then delete_missing_remote R local_snap remote_snap dry_run else pure tt

module _ (L : Fs) (R : Fs) (r : R.State) (local_snap : Snapshot) (dry_run : Bool) where
  abbrev remove_confirmed : Text → FileState → Result FileState → Action L.State (Unit {0})
  remove_confirmed rel st (err _) = pure tt
  remove_confirmed rel st (ok remote_state) =
      if not (same_file st remote_state) then pure tt else if dry_run then pure tt else L.remove rel

  unfoldable pub delete_confirmed : Text → Option FileState → Action L.State (Unit {0})
  unfolding same_file stat_file
  delete_confirmed rel none = pure tt
  delete_confirmed rel (some st) = remove_confirmed rel st (stat_file R r rel)

  abbrev remove_unseen : List Text → Text → Action L.State (Unit {0})
  remove_unseen seen rel =
      if member rel seen then pure tt else delete_confirmed rel (lookup rel local_snap.files)

  -- `safeDeleteIfRemoteExists`, from the paths that it has seen.
  unfoldable pub safe_delete : List Text → List Text → Action L.State (Unit {0})
  unfolding delete_confirmed member lookup
  safe_delete seen [] l = (done, l)
  safe_delete seen (rel ∷ ps) l =
      resume (remove_unseen seen rel l) (λ _. safe_delete (rel ∷ seen) ps)
