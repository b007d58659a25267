-- ===== src/Backend/Shares.antt =====
-- internal/backend/backend.go: `smbFS`. The share of package go-smb2 is a parameter, and a run is not
-- cancelled.
pub mod Walks
use yggsync.Prelude.{
  ℕ, zero, suc, Bool, true, false, List, [], ◌∷◌, ◌++◌, Text, Option, codes, ◌==◌, text_eq,
  if◌then◌else◌,
}
use yggsync.Prelude.Sorting.{leb_text}
use yggsync.Prelude.Results.{
  Error, not_exist, failed, Result, ok, err, Done, done, Action, fail, pure, resume, then_result,
  ignore_missing, then_closes, ◌>>◌, ◌>>=◌,
}
use yggsync.Backend.{Time, Entry, FileInfo, entry_of, Fs}
use yggsync.Backend.Paths.{clean_remote, join_path, full, dir}

-- The calls of a mounted share. `read` opens a file and reads all of it; `copy` is `io.Copy` onto a
-- file that `open_file` has created or emptied, and `delivered` what a reading that fails has given before.
pub record Share : Type 1 where
  pub State : Type 0
  pub read_dir : State → Text → Result (List FileInfo)
  pub read : State → Text → Result Text
  pub delivered : State → Text → Option Text
  pub stat : State → Text → Result FileInfo
  pub mkdir_all : Text → ℕ → Action State (Unit {0})
  pub open_file : Text → ℕ → Action State (Unit {0})
  pub copy : Text → Text → Action State (Unit {0})
  pub close : Text → Action State (Unit {0})
  pub chtimes : Text → Time → Action State (Unit {0})
  pub remove : Text → Action State (Unit {0})
  pub remove_all : Text → Action State (Unit {0})
  pub rename : Text → Text → Action State (Unit {0})

-- `sort.Slice` by name; a folder has no name twice.
abbrev insert_info : FileInfo → List FileInfo → List FileInfo
insert_info i [] = i ∷ []
insert_info i (j ∷ js) =
    let rest = insert_info i js in if leb_text i.name j.name then i ∷ j ∷ js else j ∷ rest

unfoldable pub sort_infos : List FileInfo → List FileInfo
unfolding leb_text
sort_infos [] = []
sort_infos (i ∷ is) = insert_info i (sort_infos is)

unfoldable pub child : Text → FileInfo → Text
unfolding clean_remote join_path
child rel info = clean_remote (join_path rel info.name)

-- What has been seen, and then the rest unless the walk has ended with an error.
abbrev pub and_then : List Entry × Done → List Entry × Done → List Entry × Done
and_then (seen, ok _) (more, end) = (seen ++ more, end)
and_then (seen, err e) rest = (seen, err e)

-- The loop of `walkDir`, with what a folder below gives.
unfoldable pub visit_all : (Text → List Entry × Done) → Text → List FileInfo → List Entry × Done
unfolding child
visit_all below rel [] = ([], done)
visit_all below rel (i ∷ is) =
    let rest = visit_all below rel is in
    let inside = if i.is_dir then below (child rel i) else ([], done) in
    and_then (entry_of (child rel i) i ∷ [], done) (and_then inside rest)

module _ (share : Share) (base : Text) where
  abbrev listed : (Text → List Entry × Done) → Text → Result (List FileInfo) → List Entry × Done
  listed below rel (ok infos) = visit_all below rel (sort_infos infos)
  listed below rel (err not_exist) = ([], done)
  listed below rel (err e) = ([], err e)

  -- `walkDir`, with fuel for the depth of the folders.
  unfoldable pub walk_dir : ℕ → share.State → Text → List Entry × Done
  unfolding visit_all sort_infos full
  walk_dir zero s rel = ([], err (failed (codes "out of fuel")))
  walk_dir (suc n) s rel = listed (walk_dir n s) rel (share.read_dir s (full base rel))

  abbrev make_parent : Text → Action share.State (Unit {0})
  make_parent path = if dir path == codes "." then pure tt else share.mkdir_all (dir path) 0o755

  unfoldable pub write_file : Text → Text → ℕ → Time → Action share.State (Unit {0})
  unfolding full dir
  write_file rel content mode mod_time = do
    make_parent (full base rel)
    share.open_file (full base rel) mode
    then_closes (share.copy (full base rel) content) (share.close (full base rel))
    share.chtimes (full base rel) mod_time

  -- The same with a reader that fails after a part of the content.
  unfoldable pub write_part : Text → Text → ℕ → Error → Action share.State (Unit {0})
  unfolding full dir
  write_part rel part mode e = do
    make_parent (full base rel)
    share.open_file (full base rel) mode
    then_closes (share.copy (full base rel) part >> fail e) (share.close (full base rel))

  unfoldable pub open_reader : share.State → Text → Result Text
  unfolding full
  open_reader s rel = share.read s (full base rel)

  unfoldable pub mkdir_all : Text → ℕ → Action share.State (Unit {0})
  unfolding full
  mkdir_all rel perm = share.mkdir_all (full base rel) perm

  unfoldable pub remove : Text → Action share.State (Unit {0})
  unfolding full
  remove rel = ignore_missing (share.remove (full base rel))

  unfoldable pub remove_all : Text → Action share.State (Unit {0})
  unfolding full
  remove_all rel = ignore_missing (share.remove_all (full base rel))

  unfoldable pub rename : Text → Text → Action share.State (Unit {0})
  unfolding full dir
  rename old_rel new_rel = do
    make_parent (full base new_rel)
    share.rename (full base old_rel) (full base new_rel)

  unfoldable pub stat : share.State → Text → Result Entry
  unfolding full
  stat s rel = then_result (share.stat s (full base rel)) (λ info. ok (entry_of rel info))

  -- The methods, as the file system that the rest of the program uses.
  abbrev pub smb_fs : ℕ → Fs
  smb_fs fuel = record {
    State = share.State;
    read = open_reader;
    delivered = λ s rel. share.delivered s (full base rel);
    stat = stat;
    walk = λ s. walk_dir fuel s (codes ".");
    stopped = λ e. err e;
    write_file = write_file;
    write_part = write_part;
    mkdir_all = mkdir_all;
    remove = remove;
    rename = rename;
  }
