-- ===== src/Worktree/Plan/Survival.antt =====
-- internal/runner/worktree.go: a file of the hub that the pre-pass does not count stays on the hub.
use yggsync.Prelude.{◌≡◌, ◌≢◌, refl, ap, sym, ◌∙◌, true, false, [], Text}
use yggsync.Prelude.{Option, none, some, ◌==◌, text_eq, ==_of_eq, eq_of_==, codes, inl, inr}
use yggsync.Prelude.Dict.{lookup}
use yggsync.Prelude.Results.{ok, done, resume-ok, resume-read, branch, if_some-cases}
use yggsync.Backend.{IsLawful}
use yggsync.Ledger.{FileEntry}
use yggsync.Worktree.State.{FileState, Env, Setup, World, hash_of, entry_hash, state_of}
use yggsync.Worktree.Operations.{
  read_local, read_remote, flag, copy_to_local, copy_to_remote, write_both,
}
use yggsync.Worktree.Operations.Effects.{
  IsVaultPath, Wrote, record_file-Recorded, copy_to_local-Wrote, copy_to_remote-Wrote,
  write_both-Wrote,
}
use yggsync.Worktree.Decide.{
  sidecar, decide_converged, merge_attempt, keep_both, resolve_divergence, never_had, settle,
  decide,
}
use yggsync.Worktree.Decide.Readiness.{Scanned, Scanned-missing}
use yggsync.Worktree.Plan.{planned}

-- The hub has a file at the path.
abbrev pub OnHub : (E : Env) → Text → World E → Type 0
OnHub E p w = (c : Text) × (E.remote.read w.remote p ≡ ok c)

module _ (E : Env) (run : Setup) (local_law : IsLawful E.local) (remote_law : IsLawful E.remote)
    (real : run.dry_run ≡ false) (p : Text) (v : IsVaultPath p) where
  Wrote-OnHub : (c : Text) (w w' : World E) → Wrote E p c w w' → OnHub E p w'
  Wrote-OnHub c w w' h = (c, rw (h.remote_reads p v, ==_of_eq p p refl))

  copy_to_local-OnHub :
      (st : FileState) (w w' : World E) → copy_to_local E run p st w ≡ (done, w') → OnHub E p w'
  copy_to_local-OnHub st w w' h =
      let (c, _, wrote) = copy_to_local-Wrote E run local_law remote_law real p st w w' h in
      Wrote-OnHub c w w' wrote

  copy_to_remote-OnHub :
      (st : FileState) (w w' : World E) → copy_to_remote E run p st w ≡ (done, w') → OnHub E p w'
  copy_to_remote-OnHub st w w' h =
      let (c, _, wrote) = copy_to_remote-Wrote E run local_law remote_law real p st w w' h in
      Wrote-OnHub c w w' wrote

  resolve_divergence-OnHub :
      (a b l : Text) (la lb : FileState) (w w' : World E)
      → resolve_divergence E run p a b l la lb w ≡ (done, w')
      → OnHub E p w'
  unfolding resolve_divergence read_local read_remote flag keep_both
  resolve_divergence-OnHub a b l la lb w w' h = elim (branch (a == []) _ _ w h) [
    | inl (_, h1) ↦ copy_to_local-OnHub lb _ w' h1
    | inr (_, h1) ↦ elim (branch (b == []) _ _ w h1) [
      | inl (_, h2) ↦ copy_to_remote-OnHub la _ w' h2
      | inr (_, h2) ↦
          let (ca, _, h3) = resume-read (E.local.read w.local p) w _ h2 in
          let (cb, _, h4) = resume-read (E.remote.read w.remote p) w _ h3 in
          elim (if_some-cases (merge_attempt E run w.remote l ca cb) _ _ w h4) [
            | inl (_, h5) ↦
                let (_, w1, _, h6) =
                  resume-ok (write_both E run (sidecar E run p) ca la (flag E run p w).1)
                    (λ _. copy_to_local E run p lb) h5 in
                copy_to_local-OnHub lb w1 w' h6
            | inr (t, _, h5) ↦
                Wrote-OnHub t w w' (write_both-Wrote E run local_law remote_law real p t lb w w' h5)
          ]
    ]
  ]

  decide_converged-OnHub :
      (a l : Text) (le : Option FileEntry) (lb : FileState) (w w' : World E)
      → a ≢ []
      → OnHub E p w
      → decide_converged E run p a l le lb w ≡ (done, w')
      → OnHub E p w'
  unfolding decide_converged read_remote
  decide_converged-OnHub a l le lb w w' there (c, on_hub) h = elim (branch (a == []) _ _ w h) [
    | inl (e, _) ↦ absurd (there (eq_of_== a [] e))
    | inr (_, h1) ↦ elim (branch (a == l) _ _ w h1) [
      | inl (_, h2) ↦ (c, ap (λ z. E.remote.read z.1.remote p) (sym h2) ∙ on_hub)
      | inr (_, h2) ↦
          let (d, _, h3) = resume-read (E.remote.read w.remote p) w _ h2 in
          let r =
            record_file-Recorded E run local_law remote_law real p d (codes "both") lb w w' h3 in
          (c, r.remote_same p v ∙ on_hub)
    ]
  ]

  planned_lem :
      (la lb : Option FileState) (le : Option FileEntry)
      → (hash_of la == hash_of lb) ≡ false
      → (hash_of la == entry_hash le) ≡ false
      → (hash_of lb == entry_hash le) ≡ true
      → (hash_of la == []) ≡ true
      → never_had E run le ≡ false
      → planned la lb le run.cursor ≡ true
  unfolding planned never_had
  planned_lem la lb none x y z a n = cc (y, a)
  planned_lem la lb (some e) x y z a n = rw (x, y, z, a, n)

  settle-OnHub :
      (la lb : Option FileState) (le : Option FileEntry) (w w' : World E)
      → hash_of lb ≢ []
      → OnHub E p w
      → planned la lb le run.cursor ≡ false
      → settle E run p la lb le w ≡ (done, w')
      → OnHub E p w'
  unfolding settle
  settle-OnHub la lb le w w' there on_hub kept h =
      let a = hash_of la in
      let b = hash_of lb in
      let l = entry_hash le in
      elim (branch (a == b) _ _ w h) [
        | inl (e, h1) ↦
            decide_converged-OnHub a l le (state_of lb) w w' (λ z. there (sym (eq_of_== a b e) ∙ z))
              on_hub h1
        | inr (ab, h1) ↦ elim (branch (a == l) _ _ w h1) [
          | inl (_, h2) ↦ elim (branch (b == []) _ _ w h2) [
            | inl (e, _) ↦ absurd (there (eq_of_== b [] e))
            | inr (_, h3) ↦ copy_to_local-OnHub (state_of lb) w w' h3
          ]
          | inr (al, h2) ↦ elim (branch (b == l) _ _ w h2) [
            | inl (bl, h3) ↦ elim (branch (a == []) _ _ w h3) [
              | inl (gone, h4) ↦ elim (branch (never_had E run le) _ _ w h4) [
                | inl (_, h5) ↦ copy_to_local-OnHub (state_of lb) w w' h5
                | inr (had, _) ↦ cc (kept, planned_lem la lb le ab al bl gone had)
              ]
              | inr (_, h4) ↦ copy_to_remote-OnHub (state_of la) w w' h4
            ]
            | inr (_, h3) ↦ resolve_divergence-OnHub a b l (state_of la) (state_of lb) w w' h3
          ]
        ]
      ]

  -- Where no deletion is recorded, a file of the hub that the pre-pass does not count as a deletion
  -- is still on the hub after a successful `decide`.
  pub unplanned_survives :
      (w w' : World E)
      → lookup p w.tombs ≡ none
      → OnHub E p w
      → Scanned E.sha256_hex (E.remote.read w.remote p) (lookup p run.remote_snap.files)
      → ((c : Text) → E.sha256_hex c ≢ [])
      → planned
          (lookup p run.local_snap.files)
          (lookup p run.remote_snap.files)
          (lookup p w.files)
          run.cursor
        ≡ false
      → decide E run p w ≡ (done, w')
      → OnHub E p w'
  unfolding decide
  unplanned_survives w w' no_tomb on_hub scanned hs kept h =
      let lb = lookup p run.remote_snap.files in
      elim (if_some-cases (lookup p w.tombs) _ _ w h) [
        | inl (_, h1) ↦
            settle-OnHub (lookup p run.local_snap.files) lb (lookup p w.files) w w'
              (λ e.
                cc (
                  on_hub.1,
                  Scanned-missing E.sha256_hex (E.remote.read w.remote p) lb hs scanned e,
                ))
              on_hub kept h1
        | inr (_, t, _) ↦ cc (no_tomb, t)
      ]
