-- ===== src/Backend/Roots.antt =====
-- internal/backend/backend.go: `localFS`. Packages os and path/filepath are a parameter, and a run is
-- not cancelled.
use yggsync.Prelude.{ℕ, Bool, List, [], ◌∷◌, Text, Option, codes, ◌==◌, text_eq, if◌then◌else◌}
use yggsync.Prelude.Results.{
  Error, not_exist, root_missing, failed, Result, ok, err, Done, done, Action, fail, then_result,
  unless_missing, ignore_missing, then_closes, ◌>>◌,
}
use yggsync.Backend.{Time, Entry, FileInfo, entry_of, Fs}

-- A call of the callback of `filepath.WalkDir`: an entry that cannot be listed, or one with what its
-- `Info` gives and whether it is a folder.
pub data Visit : Type 0 where
  unlisted : (at : Text) → Error → Visit
  found : (at : Text) → Result FileInfo → (is_dir : Bool) → Visit

-- `visits` are the callback's calls, as far as it lets the walk go on. `copy` is `io.Copy` onto a file
-- that `open_file` has created or emptied, and `delivered` what a reading that fails has given before.
pub record Os : Type 1 where
  pub State : Type 0
  pub join : Text → Text → Text
  pub rel : Text → Text → Result Text
  pub dir : Text → Text
  pub eval_symlinks : State → Text → Result Text
  pub visits : State → Text → List Visit
  pub read : State → Text → Result Text
  pub delivered : State → Text → Option Text
  pub stat : State → Text → Result FileInfo
  pub mkdir_all : Text → ℕ → Action State (Unit {0})
  pub open_file : Text → ℕ → Action State (Unit {0})
  pub copy : Text → Text → Action State (Unit {0})
  pub close : Text → Action State (Unit {0})
  pub chtimes : Text → Time → Action State (Unit {0})
  pub remove : Text → Action State (Unit {0})
  pub remove_all : Text → Action State (Unit {0})
  pub rename : Text → Text → Action State (Unit {0})

module _ (os : Os) (root : Text) where
  -- What the callback does: it ends the walk, passes an entry on, or skips it.
  pub data Step : Type 0 where
    stop : Error → Step
    pass : Entry → Step
    skip : Step

  abbrev entry_at : FileInfo → Bool → Result Text → Step
  entry_at info is_dir (ok rel) = pass (record (entry_of rel info) { is_dir = is_dir })
  entry_at info is_dir (err e) = stop e

  abbrev found_at : Text → Text → Bool → Result FileInfo → Step
  found_at top at is_dir (err e) = skip
  found_at top at is_dir (ok info) = entry_at info is_dir (os.rel top at)

  unfoldable pub on_visit : Text → Visit → Step
  on_visit top (unlisted at e) =
      if at == top then stop (failed (codes "local root cannot be listed")) else skip
  on_visit top (found at info is_dir) = if at == top then skip else found_at top at is_dir info

  abbrev after_step : Step → List Entry × Done → List Entry × Done
  after_step (stop e) rest = ([], err e)
  after_step (pass e) (seen, end) = (e ∷ seen, end)
  after_step skip rest = rest

  unfoldable pub walk_visits : Text → List Visit → List Entry × Done
  unfolding on_visit
  walk_visits top [] = ([], done)
  walk_visits top (v ∷ vs) = after_step (on_visit top v) (walk_visits top vs)

  -- A walk that ended because something is not there has not failed, also where the error is the
  -- callback's: see `stopped` of `local_fs`.
  abbrev forgiven : List Entry × Done → List Entry × Done
  forgiven (seen, err not_exist) = (seen, done)
  forgiven (seen, err e) = (seen, err e)
  forgiven (seen, ok a) = (seen, ok a)

  abbrev walk_resolved : os.State → Result Text → List Entry × Done
  walk_resolved s (err e) = ([], err (failed (codes "local root cannot be resolved")))
  walk_resolved s (ok top) = forgiven (walk_visits top (os.visits s top))

  abbrev walk_root : os.State → Result FileInfo → List Entry × Done
  walk_root s (err not_exist) = ([], err root_missing)
  walk_root s (err e) = ([], err (failed (codes "local root unreachable")))
  walk_root s (ok info) =
      if info.is_dir
      then walk_resolved s (os.eval_symlinks s root)
      else ([], err (failed (codes "local root is not a directory")))

  unfoldable pub walk : os.State → List Entry × Done
  unfolding walk_visits
  walk s = walk_root s (os.stat s root)

  unfoldable pub write_file : Text → Text → ℕ → Time → Action os.State (Unit {0})
  write_file rel content mode mod_time = do
    os.mkdir_all (os.dir (os.join root rel)) 0o755
    os.open_file (os.join root rel) mode
    then_closes (os.copy (os.join root rel) content) (os.close (os.join root rel))
    os.chtimes (os.join root rel) mod_time

  -- The same with a reader that fails after a part of the content.
  unfoldable pub write_part : Text → Text → ℕ → Error → Action os.State (Unit {0})
  write_part rel part mode e = do
    os.mkdir_all (os.dir (os.join root rel)) 0o755
    os.open_file (os.join root rel) mode
    then_closes (os.copy (os.join root rel) part >> fail e) (os.close (os.join root rel))

  unfoldable pub open_reader : os.State → Text → Result Text
  open_reader s rel = os.read s (os.join root rel)

  unfoldable pub mkdir_all : Text → ℕ → Action os.State (Unit {0})
  mkdir_all rel perm = os.mkdir_all (os.join root rel) perm

  unfoldable pub remove : Text → Action os.State (Unit {0})
  remove rel = ignore_missing (os.remove (os.join root rel))

  unfoldable pub remove_all : Text → Action os.State (Unit {0})
  remove_all rel = os.remove_all (os.join root rel)

  unfoldable pub rename : Text → Text → Action os.State (Unit {0})
  rename old_rel new_rel = do
    os.mkdir_all (os.dir (os.join root new_rel)) 0o755
    os.rename (os.join root old_rel) (os.join root new_rel)

  unfoldable pub stat : os.State → Text → Result Entry
  stat s rel = then_result (os.stat s (os.join root rel)) (λ info. ok (entry_of rel info))

  -- The methods, as the file system that the rest of the program uses.
  abbrev pub local_fs : Fs
  local_fs = record {
    State = os.State;
    read = open_reader;
    delivered = λ s rel. os.delivered s (os.join root rel);
    stat = stat;
    walk = walk;
    stopped = λ e. unless_missing (err e);
    write_file = write_file;
    write_part = write_part;
    mkdir_all = mkdir_all;
    remove = remove;
    rename = rename;
  }
