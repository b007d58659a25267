-- ===== src/Ledger/Paths.antt =====
-- internal/ledger/ledger.go: the names of the ledger's files.
use yggsync.Prelude.{◌≡◌, ◌≢◌, [], ◌∷◌, ◌++◌, Text, codes, length, ltb, take, if◌then◌else◌}

abbrev pub dir_name : Text
dir_name = codes ".yggsync"

-- `path.Join` of a directory and a name. Both are clean already, as all the code's arguments are.
unfoldable pub join : Text → Text → Text
join dir name = dir ++ (b'/' ∷ name)

abbrev pub ledger_file : Text
ledger_file = codes "ledger.json"

abbrev pub bak_file : Text
bak_file = codes "ledger.bak"

abbrev pub tmp_file : Text
tmp_file = codes "ledger.json.tmp"

abbrev pub lock_file : Text
lock_file = codes "lock"

abbrev pub blobs_dir : Text
blobs_dir = codes "blobs"

-- `BlobPath`
unfoldable pub blob_path : Text → Text → Text
unfolding join
blob_path dir hash =
    if ltb (length hash) 2
    then join (join (join dir blobs_dir) (codes "_")) hash
    else join (join (join dir blobs_dir) (take 2 hash)) hash

append-cancel : (xs ys zs : Text) → xs ++ ys ≡ xs ++ zs → ys ≡ zs
append-cancel [] ys zs e = e
append-cancel (x ∷ xs) ys zs e = append-cancel xs ys zs (cc)

pub join-injective : (dir a b : Text) → join dir a ≡ join dir b → a ≡ b
unfolding join
join-injective dir a b e = cc (append-cancel dir (b'/' ∷ a) (b'/' ∷ b) e)

-- The four files of a ledger directory are four.
pub names_differ :
    (dir : Text)
    → (join dir ledger_file ≢ join dir bak_file)
      × (join dir tmp_file ≢ join dir ledger_file)
      × (join dir tmp_file ≢ join dir bak_file)
names_differ dir = (
  λ e. cc (join-injective dir ledger_file bak_file e),
  λ e. cc (join-injective dir tmp_file ledger_file e),
  λ e. cc (join-injective dir tmp_file bak_file e),
)
