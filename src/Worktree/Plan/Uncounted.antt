-- ===== src/Worktree/Plan/Uncounted.antt =====
-- internal/runner/worktree.go: a deletion on the hub that the pre-pass does not count.
use yggsync.Prelude.{
  ◌≡◌, ◌≢◌, refl, ap, sym, ◌∙◌, false, List, [], ◌∷◌, Text, none, some, ◌==◌, text_eq, ==_of_eq,
  ==_of_ne, eq_of_==, Bool-cases, inl, inr,
}
use yggsync.Prelude.Dict.{lookup}
use yggsync.Prelude.Sorting.{member}
use yggsync.Prelude.Results.{err, not_exist, done, resume-ok}
use yggsync.Backend.{IsLawful}
use yggsync.Ledger.{Tombstone}
use yggsync.Worktree.State.{FileState, Env, Setup, World, hash_of, entry_hash, on_remote}
use yggsync.Worktree.Operations.{record_tombstone, delete_remote}
use yggsync.Worktree.Operations.Effects.{on_remote-ok}
use yggsync.Worktree.Decide.{guard_deletion, decide}
use yggsync.Worktree.Plan.{planned, planned_remote_deletes}

module _ (E : Env) (run : Setup) (p : Text) (w w' : World E) where
  pub delete_remote-gone :
      (last : Text)
      → IsLawful E.remote
      → delete_remote E run p last w ≡ (done, w')
      → E.remote.read w'.remote p ≡ err not_exist
  unfolding delete_remote record_tombstone
  delete_remote-gone last law h =
      let remove = on_remote {E = E} (E.remote.remove p) in
      let (_, w1, removed, h1) =
        resume-ok (remove w) (λ _. record_tombstone E run p run.client_id) h in
      let (s, e, e1) = on_remote-ok {E = E} (E.remote.remove p) w w1 removed in
      ap (λ z. E.remote.read z.1.remote p) (sym h1)
      ∙ ap (λ z. E.remote.read z.remote p) e1
      ∙ law.read-remove p w.remote s e p
      ∙ rw (==_of_eq p p refl) refl

  -- What the pre-pass counts among some paths, under the ledger and the scans of the run.
  abbrev pub counted : List Text → List Text
  counted = planned_remote_deletes w.files run.local_snap.files run.remote_snap.files run.cursor

  abbrev IsPassed : Text → Type 0
  IsPassed q =
      planned (lookup q run.local_snap.files) (lookup q run.remote_snap.files) (lookup q w.files)
        run.cursor
      ≡ false

  not_counted : (ps : List Text) → IsPassed p → member p (counted ps) ≡ false
  unfolding planned_remote_deletes member
  not_counted [] h = refl
  not_counted (q ∷ ps) h =
      let rest = not_counted ps h in
      elim (Bool-cases (p == q)) [
        | inl t ↦ rw (sym (eq_of_== p q t), h) rest
        | inr t ↦
            elim (Bool-cases (
              planned (lookup q run.local_snap.files) (lookup q run.remote_snap.files)
                (lookup q w.files) run.cursor)) [ inl c ↦ rw (c, t) rest | inr c ↦ rw (c) rest ]
      ]

  -- Where a path has no entry in the ledger and a tombstone, the client has no file there, and the hub one of
  -- the tombstone's hash, `decide`, where it succeeds, removes the file from the hub, and the pre-pass, given
  -- any paths, does not count it.
  pub uncounted_delete :
      (law : IsLawful E.remote) (st : FileState) (tomb : Tombstone)
      → lookup p run.local_snap.files ≡ none
      → lookup p run.remote_snap.files ≡ some st
      → lookup p w.files ≡ none
      → lookup p w.tombs ≡ some tomb
      → st.hash ≡ tomb.last_hash
      → st.hash ≢ []
      → decide E run p w ≡ (done, w')
      → (E.remote.read w'.remote p ≡ err not_exist)
        × ((paths : List Text) → member p (counted paths) ≡ false)
  unfolding decide planned hash_of entry_hash
  uncounted_delete law st tomb l r f t same there h =
      let goes : decide E run p w ≡ delete_remote E run p tomb.last_hash w = rw (
        t,
        l,
        r,
        f,
        decide,
        guard_deletion,
        ==_of_ne st.hash [] there,
        ==_of_eq st.hash tomb.last_hash same,
        ==_of_ne [] tomb.last_hash (λ e. there (same ∙ sym e)),
      ) in
      (
        delete_remote-gone tomb.last_hash law (sym goes ∙ h),
        λ paths. not_counted paths (rw (l, r, f, ==_of_ne [] st.hash (λ e. there (sym e)))),
      )
