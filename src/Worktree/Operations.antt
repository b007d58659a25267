-- ===== src/Worktree/Operations.antt =====
-- internal/runner/worktree.go: the primitive operations, each of which keeps the ledger in step.
pub mod Effects
pub mod Removals
use yggsync.Prelude.{ℕ, Bool, true, false, List, [], ◌∷◌, ◌++◌, Text, Option, none, some, length}
use yggsync.Prelude.{◌==◌, text_eq, nat_eq, if◌then◌else◌, codes}
use yggsync.Prelude.Dict.{Dict, lookup, insert, erase}
use yggsync.Prelude.Results.{Result, ok, err, Done, done, Action, ◌>>=◌, ◌>>◌, pure}
use yggsync.Backend.{Time, Fs}
use yggsync.Ledger.{FileEntry, Tombstone}
use yggsync.Ledger.Paths.{dir_name}
use yggsync.Ledger.Blobs.{put_blob}
use yggsync.Worktree.State.{
  FileState, Env, Setup, World, entry_hash, unix, time_or, on_local, on_remote,
}

module _ (E : Env) (run : Setup) where
  abbrev Act : Type 0
  Act = Action (World E) (Unit {0})

  unfoldable pub read_local : Text → Action (World E) Text
  read_local p w = (E.local.read w.local p, w)

  unfoldable pub read_remote : Text → Action (World E) Text
  read_remote p w = (E.remote.read w.remote p, w)

  unfoldable pub flag : Text → Act
  flag p w = (done, record w { conflicts = w.conflicts ++ p ∷ [] })

  -- The entry that `record` puts into the ledger.
  abbrev pub recorded : Text → FileState → Text → FileEntry
  recorded content st by = record {
    hash = E.sha256_hex content;
    size = length content;
    mod_time = unix (time_or st.mod_time run.now);
    gen = run.gen;
    updated_by = by;
  }

  abbrev pub note_file : Text → FileEntry → Act
  note_file p e w = (done, record w { files = insert p e w.files; tombs = erase p w.tombs })

  unfoldable pub record_file : Text → Text → FileState → Text → Act
  record_file p content st by =
      let hash = E.sha256_hex content in
      let store : Act =
        if run.dry_run
        then pure tt
        else on_remote (put_blob E.remote dir_name hash content run.wall) in
      do store; note_file p (recorded content st by)

  unfoldable pub record_tombstone : Text → Text → Act
  record_tombstone p by w =
      let tomb : Tombstone = record {
        gen = run.gen;
        last_hash = entry_hash (lookup p w.files);
        deleted_by = by;
        deleted_at = unix run.now;
      } in
      (done, record w { files = erase p w.files; tombs = insert p tomb w.tombs })

  unfoldable pub copy_to_local : Text → FileState → Act
  unfolding read_remote record_file
  copy_to_local p st = if run.dry_run then pure tt else do
    content ← read_remote p
    on_local (E.local.write_file p content st.mode st.mod_time)
    record_file p content st (codes "hub")

  unfoldable pub copy_to_remote : Text → FileState → Act
  unfolding read_local record_file
  copy_to_remote p st = if run.dry_run then pure tt else do
    content ← read_local p
    on_remote (E.remote.write_file p content st.mode st.mod_time)
    record_file p content st run.client_id

  abbrev pub both_state : FileState → FileState
  both_state st = record {
    size = 0;
    mode = if st.mode == 0 then 0o644 else st.mode;
    mod_time = time_or st.mod_time run.now;
    hash = [];
  }

  unfoldable pub write_both : Text → Text → FileState → Act
  unfolding record_file time_or
  write_both p content st =
      let set = both_state st in
      if run.dry_run then pure tt else do
        on_local (E.local.write_file p content set.mode set.mod_time)
        on_remote (E.remote.write_file p content set.mode set.mod_time)
        record_file p content set run.client_id

  unfoldable pub delete_local : Text → Act
  unfolding record_tombstone
  delete_local p = do on_local (E.local.remove p); record_tombstone p (codes "hub")

  -- The source takes the last hash as well, and drops it.
  unfoldable pub delete_remote : Text → Text → Act
  unfolding record_tombstone
  delete_remote p last_hash = do on_remote (E.remote.remove p); record_tombstone p run.client_id
