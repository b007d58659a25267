-- ===== src/Backend/Shares/Walks.antt =====
-- internal/backend/backend.go, `walkDir`: what a walk of a share sees.
use yggsync.Prelude.{ℕ, suc, ◌+◌, ◌≡◌, true, false, List, [], ◌∷◌, ◌++◌, Text, text_eq}
use yggsync.Prelude.Results.{ok}
use yggsync.Backend.{Entry, FileInfo, entry_of}
use yggsync.Backend.Paths.{full}
use yggsync.Backend.Paths.Proper.{IsProper}
use yggsync.Backend.Paths.Within.{under}
use yggsync.Backend.Shares.{Share, sort_infos}

-- A folder's content: files, and folders with theirs, by name.
pub data Forest : Type 0 where
  nil : Forest
  file : FileInfo → Forest → Forest
  folder : FileInfo → Forest → Forest → Forest

abbrev pub infos : Forest → List FileInfo
infos nil = []
infos (file i f) = i ∷ infos f
infos (folder i g f) = i ∷ infos f

abbrev pub count_folders : Forest → ℕ
count_folders nil = 0
count_folders (file i f) = count_folders f
count_folders (folder i g f) = suc (count_folders g) + count_folders f

-- All entries, a folder before what is in it.
abbrev pub entries : Text → Forest → List Entry
entries rel nil = []
entries rel (file i f) = entry_of (under rel i.name) i ∷ entries rel f
entries rel (folder i g f) =
    entry_of (under rel i.name) i ∷ entries (under rel i.name) g ++ entries rel f

module _ (share : Share) (base : Text) (s : share.State) where
  -- The share lists these, in some order.
  abbrev pub Lists : Text → List FileInfo → Type 0
  Lists rel is =
      (found : List FileInfo) × (share.read_dir s (full base rel) ≡ ok found)
      × (sort_infos found ≡ is)

  -- The share has this content in the folders below one.
  abbrev pub Contains : Text → Forest → Type 0
  Contains rel nil = Unit {0}
  Contains rel (file i f) = IsProper i.name × (i.is_dir ≡ false) × Contains rel f
  Contains rel (folder i g f) =
      IsProper i.name
      × (i.is_dir ≡ true)
      × Lists (under rel i.name) (infos g)
      × Contains (under rel i.name) g
      × Contains rel f
