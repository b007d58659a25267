-- ===== src/Ledger/Blobs/Laws.antt =====
-- internal/ledger/ledger.go: what the blob store holds.
use yggsync.Prelude.{◌≡◌, ◌≢◌, Bool-cases, inl, inr, Text}
use yggsync.Backend.{Time, Fs, IsLawful}
use yggsync.Ledger.Paths.{blob_path}
use yggsync.Ledger.Blobs.{has_blob, put_blob}

module _ (F : Fs) (law : IsLawful F) (dir : Text) where
  -- A blob write touches nothing but the blob, whether it succeeds or not.
  pub put_blob_frame :
      (hash content : Text) (now : Time) (s : F.State) (q : Text)
      → q ≢ blob_path dir hash
      → F.read (put_blob F dir hash content now s).1 q ≡ F.read s q
  unfolding put_blob
  put_blob_frame hash content now s q ne = elim (Bool-cases (has_blob F s dir hash)) [
    | inl old ↦ rw (old, put_blob)
    | inr new ↦
        rw (new, put_blob) (law.write_file_frame (blob_path dir hash) content 0o644 now s q ne)
  ]
