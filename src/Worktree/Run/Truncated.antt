-- ===== src/Worktree/Run/Truncated.antt =====
-- internal/runner/worktree.go, `scanWorktree`, with internal/backend/backend.go, `Walk` of `localFS`: a file
-- of the client that cannot be opened because it is not there, as a link to nowhere.
use yggsync.Prelude.{
  Bool, ◌≡◌, ◌≢◌, ap, sym, ◌∙◌, true, false, List, [], ◌∷◌, ◌++◌, Text, some, none, text_eq,
  ==_of_eq, ==_of_ne, inl, inr,
}
use yggsync.Prelude.Int.{ltb_ℤ}
use yggsync.Prelude.Dict.{lookup}
use yggsync.Prelude.Results.{ok, err, not_exist, Done, done, Result-cases}
use yggsync.Backend.{Time, Entry, Fs, IsLawful}
use yggsync.Backend.Paths.{slashed}
use yggsync.Backend.Roots.{Os, walk, open_reader, local_fs}
use yggsync.Ledger.{FileEntry}
use yggsync.Worktree.State.{FileState, Snapshot, Env, Setup, World, hash_of, entry_hash}
use yggsync.Worktree.Operations.{delete_remote}
use yggsync.Worktree.Decide.{settle, never_had, decide}
use yggsync.Worktree.Plan.Uncounted.{delete_remote-gone}
use yggsync.Worktree.Run.{is_internal, no_entries, scanned, scan_entry, scan_entries, scan_worktree}

module _ (os : Os) (root : Text) (R : Fs) (sha256_hex : Text → Text) (format_stamp : Time → Text)
    (matches : Text → Bool) where
  -- The hub, and a client with a local root.
  abbrev pub client : Env
  client = record {
    local = local_fs os root;
    remote = R;
    sha256_hex = sha256_hex;
    format_stamp = format_stamp;
  }

  module _ (s : os.State) where
    abbrev pub scan_of : Snapshot → List Entry → Done → Snapshot × Done
    scan_of = scan_entries sha256_hex matches (local_fs os root) s

    -- A regular entry of the job, whose file is not there when it is opened.
    pub record Vanished (e : Entry) : Type 0 where
      pub vault : is_internal (slashed e.path) ≡ false
      pub wanted : matches (slashed e.path) ≡ true
      pub regular : e.is_dir ≡ false
      pub gone : os.read s (os.join root (slashed e.path)) ≡ err not_exist

    scan_entries-vanished :
        (x snap : Snapshot) (before after : List Entry) (e : Entry) (end : Done)
        → Vanished e
        → scan_of x before done ≡ (snap, done)
        → scan_of x (before ++ e ∷ after) end ≡ (snap, done)
    unfolding scan_entries scan_entry open_reader
    scan_entries-vanished x snap [] after e end v h = rw (v.vault, v.wanted, v.regular, v.gone) h
    scan_entries-vanished x snap (b ∷ before) after e end v h =
        elim (Result-cases (scan_entry sha256_hex matches (local_fs os root) s x b)) [
          | inl (next, f) ↦
              rw (f) (scan_entries-vanished next snap before after e end v (rw (f) at h))
          | inr (_, f) ↦ rw (f) (rw (f) at h)
        ]

    -- What a deletion by the client looks like to `decide`.
    decide-deletes :
        (run : Setup) (p : Text) (w w' : World client) (le : FileEntry) (st : FileState)
        → IsLawful R
        → lookup p run.local_snap.files ≡ none
        → lookup p run.remote_snap.files ≡ some st
        → lookup p w.files ≡ some le
        → lookup p w.tombs ≡ none
        → st.hash ≡ le.hash
        → st.hash ≢ []
        → ltb_ℤ run.cursor le.gen ≡ false
        → decide client run p w ≡ (done, w')
        → R.read w'.remote p ≡ err not_exist
    unfolding decide settle hash_of entry_hash never_had
    decide-deletes run p w w' le st law l r f t same there had h =
        let goes : decide client run p w ≡ delete_remote client run p le.hash w = rw (
          t,
          l,
          r,
          f,
          ==_of_ne [] st.hash (λ e. there (sym e)),
          ==_of_ne [] le.hash (λ e. there (same ∙ sym e)),
          ==_of_eq st.hash le.hash same,
          had,
        ) in
        delete_remote-gone client run p w w' le.hash law (sym goes ∙ h)

    -- Where the walk of the client comes to a regular entry of the job whose file is not there when it is
    -- opened, the scan succeeds with what it has found before that entry, and nothing of it and after it; and
    -- `decide`, where it succeeds in a run with that scan, removes from the hub a file that the scan has so
    -- missed, that the hub has as the ledger does, and that has not changed since the client's last run.
    pub vanished_cuts :
        (before after : List Entry) (e : Entry) (end : Done) (snap : Snapshot) (run : Setup)
        (p : Text) (w w' : World client) (le : FileEntry) (st : FileState)
        → IsLawful R
        → walk os root s ≡ (before ++ e ∷ after, end)
        → Vanished e
        → scan_of (no_entries sha256_hex matches (local_fs os root) s) before done ≡ (snap, done)
        → run.local_snap ≡ snap
        → lookup p snap.files ≡ none
        → lookup p run.remote_snap.files ≡ some st
        → lookup p w.files ≡ some le
        → lookup p w.tombs ≡ none
        → st.hash ≡ le.hash
        → st.hash ≢ []
        → ltb_ℤ run.cursor le.gen ≡ false
        → decide client run p w ≡ (done, w')
        → (scan_worktree sha256_hex matches (local_fs os root) s ≡ ok snap)
          × (R.read w'.remote p ≡ err not_exist)
    unfolding scan_worktree
    vanished_cuts before after e end snap run p w w' le st law walked v cut local missed r f t same
          there had h =
        (
          rw (walked) (
              ap (scanned sha256_hex matches (local_fs os root) s)
                (scan_entries-vanished _ snap before after e end v cut)),
          decide-deletes run p w w' le st law (ap (λ z. lookup p z.files) local ∙ missed) r f t same
              there had h,
        )
