-- ===== src/Ledger/Blobs.antt =====
-- internal/ledger/ledger.go: the blob store.
pub mod Laws
use yggsync.Prelude.{ℕ, Bool, true, false, Text, if◌then◌else◌}
use yggsync.Prelude.Results.{Result, ok, err, done, Action}
use yggsync.Backend.{Time, Fs}
use yggsync.Ledger.Paths.{blob_path}

module _ (F : Fs) where
  unfoldable pub has_blob : F.State → Text → Text → Bool
  has_blob s dir hash = elim (F.stat s (blob_path dir hash)) [ ok _ ↦ true | err _ ↦ false ]

  -- `now` is the wall clock.
  unfoldable pub put_blob : Text → Text → Text → Time → Action F.State (Unit {0})
  unfolding has_blob
  put_blob dir hash content now s =
      if has_blob s dir hash
      then (done, s)
      else F.write_file (blob_path dir hash) content 0o644 now s

  unfoldable pub get_blob : F.State → Text → Text → Result Text
  get_blob s dir hash = F.read s (blob_path dir hash)
