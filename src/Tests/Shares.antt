-- ===== src/Tests/Shares.antt =====
-- A small share and a small local root, and the theorems there.
use yggsync.Prelude.{
  ◌≡◌, refl, Bool, true, false, [], ◌∷◌, ◌++◌, none, Text, codes, text_dec, text_eq, ℕ_discrete,
  ◌==◌, if◌then◌else◌,
}
use yggsync.Prelude.Dict.{lookup, insert, erase, keys}
use yggsync.Prelude.Sorting.{sort, leb_text}
use yggsync.Prelude.Strings.{split_on, join_on}
use yggsync.Prelude.Results.{not_exist, root_missing, ok, err, pure, for_each}
use yggsync.Backend.{FileInfo}
use yggsync.Backend.Memory.{memory, memory-IsLawful}
use yggsync.Backend.Paths.{full, clean_remote, clean, join_path, push, push_all, slashed}
use yggsync.Backend.Shares.{Share, walk_dir}
use yggsync.Backend.Shares.Walks.{Forest, nil, file, folder}
use yggsync.Backend.Roots.{Os, found, local_fs}
use yggsync.Worktree.State.{Snapshot}
use yggsync.Copying.{extra, mirror}
use yggsync.Copying.Scan.{scan_fs, scan_dest, run_copy, scan_loop, scan_step}
use yggsync.Copying.Missing.{missing_source_deletes, missing_root}
use yggsync.Tests.Copies.{photo, destination}

abbrev pub info : Text → Bool → FileInfo
info name is_dir = record { name = name; size = 2; mode = 0o644; mod_time = 7; is_dir = is_dir }

abbrev note : FileInfo
note = info (codes "note") false

abbrev sub : FileInfo
sub = info (codes "sub") true

abbrev page : FileInfo
page = info (codes "page") false

-- A share with a folder `vault` that has a note and a folder with a page.
abbrev hub : Share
hub = record {
  State = Unit {0};
  read_dir = λ s p.
      if p == codes "vault"
      then ok (sub ∷ note ∷ [])
      else if p == codes "vault/sub"
      then ok (page ∷ [])
      else err not_exist;
  read = λ s p. err not_exist;
  delivered = λ s p. none;
  stat = λ s p. err not_exist;
  mkdir_all = λ p m. pure tt;
  open_file = λ p m. pure tt;
  copy = λ p c. pure tt;
  close = λ p. pure tt;
  chtimes = λ p t. pure tt;
  remove = λ p. pure tt;
  remove_all = λ p. pure tt;
  rename = λ o n. pure tt;
}

abbrev tree : Forest
tree = file note (folder sub (file page nil) nil)

abbrev pub everything : Text → Bool
everything p = true

abbrev copied : Snapshot
copied = (scan_fs everything memory destination).0

missing_source_deletes_example : memory.read [] photo ≡ err not_exist
unfolding full clean_remote clean join_path push_all push split_on join_on slashed text_dec
    ℕ_discrete run_copy scan_fs scan_dest scan_loop scan_step mirror walk_dir for_each lookup insert
    erase keys sort extra leb_text
missing_source_deletes_example =
    missing_source_deletes hub (codes "gone") 0 tt memory memory-IsLawful everything destination []
      copied photo refl refl refl refl

-- A local root with a link to nowhere before a note, and roots that are not there.
abbrev pub phone : Os
phone = record {
  State = Unit {0};
  join = λ a b. a ++ b;
  rel = λ a b. ok b;
  dir = λ p. p;
  eval_symlinks = λ s p. ok p;
  visits = λ s top.
      found top (ok (info top true)) true
      ∷ found (codes "a") (ok (info (codes "a") false)) false
      ∷ found (codes "a.md") (ok (info (codes "a.md") false)) false
      ∷ [];
  read = λ s p. err not_exist;
  delivered = λ s p. none;
  stat = λ s p. if p == codes "/vault" then ok (info (codes "vault") true) else err not_exist;
  mkdir_all = λ p m. pure tt;
  open_file = λ p m. pure tt;
  copy = λ p c. pure tt;
  close = λ p. pure tt;
  chtimes = λ p t. pure tt;
  remove = λ p. pure tt;
  remove_all = λ p. pure tt;
  rename = λ o n. pure tt;
}

missing_root_example :
    (run_copy (local_fs phone (codes "/old")) memory everything tt true false destination
      ≡ (err root_missing, destination))
    × (scan_dest everything (local_fs phone (codes "/old")) tt
        ≡ ok (record { files = []; dirs = [] }))
unfolding text_dec ℕ_discrete
missing_root_example =
    missing_root phone (codes "/old") tt memory everything true false destination refl
