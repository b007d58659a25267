-- ===== src/Worktree/Decide/Deletions.antt =====
-- internal/runner/worktree.go, `decide`: which deletions it makes, in a dry run and under a tombstone.
use yggsync.Prelude.{◌≡◌, ◌≢◌, refl, ap, sym, ◌∙◌, true, [], Text, none, some}
use yggsync.Prelude.{text_eq, ==_of_eq, ==_of_ne, codes}
use yggsync.Prelude.Dict.{lookup, erase, lookup-insert}
use yggsync.Prelude.Results.{err, not_exist, done}
use yggsync.Backend.{IsLawful}
use yggsync.Ledger.{FileEntry, Tombstone}
use yggsync.Worktree.State.{FileState, Env, Setup, World, hash_of, entry_hash, unix}
use yggsync.Worktree.Operations.{delete_local, copy_to_remote}
use yggsync.Worktree.Decide.{settle, guard_deletion, decide}

module _ (E : Env) (run : Setup) (p : Text) (w : World E) where
  -- Unchanged since the ledger's version, which is gone from the hub: `decide` deletes the local file.
  hub_deleted :
      (st : FileState) (e : FileEntry)
      → lookup p run.local_snap.files ≡ some st
      → lookup p run.remote_snap.files ≡ none
      → lookup p w.files ≡ some e
      → lookup p w.tombs ≡ none
      → st.hash ≡ e.hash
      → e.hash ≢ []
      → decide E run p w ≡ delete_local E run p w
  unfolding decide hash_of entry_hash
  hub_deleted st e l r f t same there = rw (
    t,
    l,
    r,
    f,
    decide,
    settle,
    ==_of_ne st.hash [] (λ z. there (sym same ∙ z)),
    ==_of_eq st.hash e.hash same,
  )

  -- A dry run deletes the local file of a path that the hub has lost.
  pub dry_run_deletes :
      (st : FileState) (e : FileEntry) (s : E.local.State)
      → IsLawful E.local
      → run.dry_run ≡ true
      → lookup p run.local_snap.files ≡ some st
      → lookup p run.remote_snap.files ≡ none
      → lookup p w.files ≡ some e
      → lookup p w.tombs ≡ none
      → st.hash ≡ e.hash
      → e.hash ≢ []
      → E.local.remove p w.local ≡ (done, s)
      → ((decide E run p w).0 ≡ done) × (E.local.read (decide E run p w).1.local p ≡ err not_exist)
  unfolding delete_local
  dry_run_deletes st e s law dry l r f t same there removed =
      rw (hub_deleted st e l r f t same there, delete_local, removed)
        (refl, law.read-remove p w.local s removed p ∙ rw (==_of_eq p p refl))

  -- Under a tombstone a copy of the deleted version is removed, not sent to the hub.
  stale_copy :
      (st : FileState) (tomb : Tombstone)
      → lookup p run.local_snap.files ≡ some st
      → lookup p run.remote_snap.files ≡ none
      → lookup p w.files ≡ none
      → lookup p w.tombs ≡ some tomb
      → st.hash ≡ tomb.last_hash
      → st.hash ≢ []
      → decide E run p w ≡ delete_local E run p w
  unfolding decide hash_of entry_hash
  stale_copy st tomb l r f t same there = rw (
    t,
    l,
    r,
    f,
    decide,
    guard_deletion,
    ==_of_ne st.hash [] there,
    ==_of_eq st.hash tomb.last_hash same,
  )

  -- A tombstone without a hash takes the same copy for new content.
  unknown_copy :
      (st : FileState) (tomb : Tombstone)
      → lookup p run.local_snap.files ≡ some st
      → lookup p run.remote_snap.files ≡ none
      → lookup p w.files ≡ none
      → lookup p w.tombs ≡ some tomb
      → tomb.last_hash ≡ []
      → st.hash ≢ []
      → decide E run p w ≡ copy_to_remote E run p st (record w { tombs = erase p w.tombs })
  unfolding decide hash_of entry_hash
  unknown_copy st tomb l r f t lost there = rw (
    t,
    l,
    r,
    f,
    decide,
    guard_deletion,
    ==_of_ne st.hash [] there,
    ==_of_ne st.hash tomb.last_hash (λ e. there (e ∙ lost)),
    ==_of_eq (hash_of none) tomb.last_hash (sym lost),
  )

  -- The tombstone that the removal of a stale copy leaves knows no hash.
  forgotten_hash :
      (s : E.local.State)
      → E.local.remove p w.local ≡ (done, s)
      → lookup p w.files ≡ none
      → (t : Tombstone) × (lookup p (delete_local E run p w).1.tombs ≡ some t) × (t.last_hash ≡ [])
  unfolding delete_local entry_hash
  forgotten_hash s removed f = (
    record {
      gen = run.gen;
      last_hash = entry_hash (lookup p w.files);
      deleted_by = codes "hub";
      deleted_at = unix run.now;
    },
    rw (removed, delete_local, lookup-insert, ==_of_eq p p refl),
    ap entry_hash f,
  )

-- The first client with a copy of a deleted version has it removed; the tombstone then knows no
-- hash, and a second such client sends the copy to the hub again.
pub second_stale_copy :
    (E : Env) (run run2 : Setup) (p : Text) (w w2 : World E) (st st2 : FileState) (tomb : Tombstone)
    (s : E.local.State)
    → lookup p run.local_snap.files ≡ some st
    → lookup p run.remote_snap.files ≡ none
    → lookup p w.files ≡ none
    → lookup p w.tombs ≡ some tomb
    → st.hash ≡ tomb.last_hash
    → st.hash ≢ []
    → E.local.remove p w.local ≡ (done, s)
    → lookup p w2.tombs ≡ lookup p (decide E run p w).1.tombs
    → lookup p w2.files ≡ none
    → lookup p run2.local_snap.files ≡ some st2
    → lookup p run2.remote_snap.files ≡ none
    → st2.hash ≡ st.hash
    → (decide E run p w ≡ delete_local E run p w)
      × (decide E run2 p w2 ≡ copy_to_remote E run2 p st2 (record w2 { tombs = erase p w2.tombs }))
second_stale_copy E run run2 p w w2 st st2 tomb s l r f t same there removed t2 f2 l2 r2 same2 =
    let first = stale_copy E run p w st tomb l r f t same there in
    let (left, found, lost) = forgotten_hash E run p w s removed f in
    (
      first,
      unknown_copy E run2 p w2 st2 left l2 r2 f2 (t2 ∙ ap (λ z. lookup p z.1.tombs) first ∙ found)
          lost (λ e. there (sym same2 ∙ e)),
    )
