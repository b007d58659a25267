-- ===== src/Tests/Copies.antt =====
-- Runs of the copying jobs on file systems in memory, and their theorems there.
use yggsync.Prelude.{◌≡◌, refl, true, false, [], ◌∷◌, Text, codes, text_dec, text_eq, length}
use yggsync.Prelude.Dict.{lookup, insert, erase, keys}
use yggsync.Prelude.Sorting.{sort}
use yggsync.Prelude.Results.{done, for_each}
use yggsync.Backend.Memory.{File, Files, memory, memory-IsLawful}
use yggsync.Worktree.State.{FileState, Snapshot}
use yggsync.Copying.{same_file, extra, mirror}
use yggsync.Copying.Mirror.{left, mirror-read}

abbrev pub file : Text → File
file c = record { content = c; mode = 0o644; mod_time = 7 }

abbrev state : Text → FileState
state c = record { size = length c; mode = 0o644; mod_time = 7; hash = [] }

abbrev pub photo : Text
photo = codes "p"

abbrev pub extra_file : Text
extra_file = codes "q"

abbrev pub source : Files
source = (photo, file (codes "new")) ∷ []

abbrev pub destination : Files
destination = (photo, file (codes "old!")) ∷ (extra_file, file (codes "z")) ∷ []

abbrev pub source_snap : Snapshot
source_snap = record { files = (photo, state (codes "new")) ∷ []; dirs = [] }

abbrev destination_snap : Snapshot
destination_snap = record {
  files = (photo, state (codes "old!")) ∷ (extra_file, state (codes "z")) ∷ [];
  dirs = [];
}

mirror_runs :
    mirror memory memory source true source_snap destination_snap false destination ≡ (done, source)
unfolding mirror for_each lookup insert erase text_dec keys sort extra same_file
mirror_runs = refl

mirror-read_example :
    memory.read source photo
    ≡ left memory memory memory-IsLawful source source_snap destination_snap true
        (memory.read destination photo)
        photo
        (lookup photo source_snap.files)
        (lookup photo destination_snap.files)
mirror-read_example =
    mirror-read memory memory memory-IsLawful source source_snap destination_snap true destination
      source mirror_runs photo

-- The only copy of a photo, and one that the destination has.
