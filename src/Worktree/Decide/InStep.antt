-- ===== src/Worktree/Decide/InStep.antt =====
-- internal/runner/worktree.go, `decide`: after it succeeds the path is in step.
use yggsync.Prelude.{◌≡◌, ◌≢◌, refl, ap, sym, subst, ◌∙◌, false, [], Text}
use yggsync.Prelude.{Option, ◌==◌, text_eq, ==_of_eq, eq_of_==, codes, both_true}
use yggsync.Prelude.{inl, inr, ◌&&◌}
use yggsync.Prelude.Dict.{lookup, erase, lookup-erase}
use yggsync.Prelude.Results.{
  ok, err, not_exist, done, resume-ok, resume-read, branch, if_some-cases,
}
use yggsync.Backend.{IsLawful}
use yggsync.Ledger.{FileEntry}
use yggsync.Worktree.State.{FileState, Env, Setup, World, hash_of, entry_hash, state_of}
use yggsync.Worktree.Operations.{
  read_local, read_remote, flag, copy_to_local, copy_to_remote, write_both, delete_local,
  delete_remote,
}
use yggsync.Worktree.Operations.Removals.{delete_local-Erased, delete_remote-Erased}
use yggsync.Worktree.Operations.Effects.{
  IsVaultPath, record_file-Wrote, copy_to_local-Wrote, copy_to_remote-Wrote, write_both-Wrote,
}
use yggsync.Worktree.Decide.{
  sidecar, decide_converged, merge_attempt, keep_both, resolve_divergence, never_had, settle,
  guard_deletion, decide,
}
use yggsync.Worktree.Decide.Readiness.{
  InStep, present, absent, Scanned, Ready, Scanned-missing, Wrote-InStep, Erased-InStep,
  Scanned-found, no_entry,
}

module _ (E : Env) (run : Setup) (local_law : IsLawful E.local) (remote_law : IsLawful E.remote)
    (real : run.dry_run ≡ false) where
  copy_to_local-InStep :
      (p : Text) (st : FileState) (w w' : World E)
      → IsVaultPath p
      → copy_to_local E run p st w ≡ (done, w')
      → InStep E p w'
  copy_to_local-InStep p st w w' v h =
      let (c, _, wrote) = copy_to_local-Wrote E run local_law remote_law real p st w w' h in
      Wrote-InStep E p c w w' v wrote

  copy_to_remote-InStep :
      (p : Text) (st : FileState) (w w' : World E)
      → IsVaultPath p
      → copy_to_remote E run p st w ≡ (done, w')
      → InStep E p w'
  copy_to_remote-InStep p st w w' v h =
      let (c, _, wrote) = copy_to_remote-Wrote E run local_law remote_law real p st w w' h in
      Wrote-InStep E p c w w' v wrote

  delete_local-InStep :
      (p : Text) (w w' : World E)
      → IsVaultPath p
      → E.remote.read w.remote p ≡ err not_exist
      → delete_local E run p w ≡ (done, w')
      → InStep E p w'
  delete_local-InStep p w w' v gone h =
      Erased-InStep E p w w' v (delete_local-Erased E run local_law remote_law real p w w' gone h)

  delete_remote-InStep :
      (p last : Text) (w w' : World E)
      → IsVaultPath p
      → E.local.read w.local p ≡ err not_exist
      → delete_remote E run p last w ≡ (done, w')
      → InStep E p w'
  delete_remote-InStep p last w w' v gone h =
      Erased-InStep E p w w' v
        (delete_remote-Erased E run local_law remote_law real p last w w' gone h)

  keep_both-InStep :
      (p ca : Text) (la lb : FileState) (w w' : World E)
      → IsVaultPath p
      → keep_both E run p ca la lb w ≡ (done, w')
      → InStep E p w'
  unfolding keep_both flag
  keep_both-InStep p ca la lb w w' v h =
      let w0 = (flag E run p w).1 in
      let (_, w1, _, h1) =
        resume-ok (write_both E run (sidecar E run p) ca la w0) (λ _. copy_to_local E run p lb) h in
      copy_to_local-InStep p lb w1 w' v h1

  resolve_divergence-InStep :
      (p a b l : Text) (la lb : FileState) (w w' : World E)
      → IsVaultPath p
      → resolve_divergence E run p a b l la lb w ≡ (done, w')
      → InStep E p w'
  unfolding resolve_divergence read_local read_remote flag keep_both
  resolve_divergence-InStep p a b l la lb w w' v h = elim (branch (a == []) _ _ w h) [
    | inl (_, h1) ↦ copy_to_local-InStep p lb _ w' v h1
    | inr (_, h1) ↦ elim (branch (b == []) _ _ w h1) [
      | inl (_, h2) ↦ copy_to_remote-InStep p la _ w' v h2
      | inr (_, h2) ↦
          let (ca, _, h3) = resume-read (E.local.read w.local p) w _ h2 in
          let (cb, _, h4) = resume-read (E.remote.read w.remote p) w _ h3 in
          elim (if_some-cases (merge_attempt E run w.remote l ca cb) _ _ w h4) [
            | inl (_, h5) ↦ keep_both-InStep p ca la lb w w' v h5
            | inr (t, _, h5) ↦
                Wrote-InStep E p t w w' v
                  (write_both-Wrote E run local_law remote_law real p t lb w w' h5)
          ]
    ]
  ]

  decide_converged-InStep :
      (p a l : Text) (le : Option FileEntry) (lb : FileState) (w w' : World E)
      → IsVaultPath p
      → (a ≡ []
          → (E.local.read w.local p ≡ err not_exist) × (E.remote.read w.remote p ≡ err not_exist))
      → (a ≢ []
          → (c : Text) × (E.local.read w.local p ≡ ok c)
            × (E.remote.read w.remote p ≡ ok c)
            × (a ≡ E.sha256_hex c))
      → lookup p w.files ≡ le
      → entry_hash le ≡ l
      → decide_converged E run p a l le lb w ≡ (done, w')
      → InStep E p w'
  unfolding decide_converged read_remote entry_hash
  decide_converged-InStep p a l le lb w w' v gone here same_le same_l h =
      elim (branch (a == []) _ _ w h) [
        | inl (e, h1) ↦
            let (gl, gr) = gone (eq_of_== a [] e) in
            elim (if_some-cases le _ _ w h1) [
              | inl (none_le, h2) ↦
                  subst (InStep E p) (ap (λ z. z.1) h2) (absent gl gr (same_le ∙ none_le))
              | inr (x, some_le, h2) ↦
                  subst (InStep E p) (ap (λ z. z.1) h2)
                    (absent gl gr (lookup-erase p p w.files ∙ rw (==_of_eq p p refl)))
            ]
        | inr (e, h1) ↦
            let (c, on_l, on_r, hash) = here (λ q. cc (e, ==_of_eq a [] q)) in
            elim (branch (a == l) _ _ w h1) [
              | inl (al, h2) ↦ subst (InStep E p) (ap (λ z. z.1) h2) (
                  present c on_l on_r
                    (ap entry_hash same_le ∙ same_l ∙ sym (eq_of_== a l al) ∙ hash))
              | inr (_, h2) ↦
                  let (d, got, h3) = resume-read (E.remote.read w.remote p) w _ h2 in
                  Wrote-InStep E p d w w' v (
                    record_file-Wrote E run local_law remote_law real p d (codes "both") lb w w'
                      (cc (got, on_r, on_l)) got h3)
            ]
      ]

  settle-InStep :
      (p : Text) (la lb : Option FileState) (le : Option FileEntry) (w w' : World E)
      → IsVaultPath p
      → Scanned E.sha256_hex (E.local.read w.local p) la
      → Scanned E.sha256_hex (E.remote.read w.remote p) lb
      → ((c d : Text)
          → E.local.read w.local p ≡ ok c
          → E.remote.read w.remote p ≡ ok d
          → E.sha256_hex c ≡ E.sha256_hex d
          → c ≡ d)
      → ((c : Text) → E.sha256_hex c ≢ [])
      → lookup p w.files ≡ le
      → settle E run p la lb le w ≡ (done, w')
      → InStep E p w'
  unfolding settle
  settle-InStep p la lb le w w' v on_l on_r apart hs same_le h =
      let a = hash_of la in
      let b = hash_of lb in
      let sha = E.sha256_hex in
      let gone_r : b ≡ [] → E.remote.read w.remote p ≡ err not_exist =
        Scanned-missing sha (E.remote.read w.remote p) lb hs on_r in
      let gone_l : a ≡ [] → E.local.read w.local p ≡ err not_exist =
        Scanned-missing sha (E.local.read w.local p) la hs on_l in
      elim (branch (a == b) _ _ w h) [
        | inl (ab, h1) ↦
            decide_converged-InStep p a (entry_hash le) le (state_of lb) w w' v
              (λ e. (gone_l e, gone_r (sym (eq_of_== a b ab) ∙ e)))
              (λ ne.
                let (c, rc, hc) = Scanned-found sha (E.local.read w.local p) la on_l ne in
                let (d, rd, hd) =
                  Scanned-found sha (E.remote.read w.remote p) lb on_r
                    (λ z. ne (eq_of_== a b ab ∙ z)) in
                let same : c ≡ d = apart c d rc rd (sym hc ∙ eq_of_== a b ab ∙ hd) in
                (c, rc, rd ∙ ap ok (sym same), hc))
              same_le refl h1
        | inr (_, h1) ↦ elim (branch (a == entry_hash le) _ _ w h1) [
          | inl (_, h2) ↦ elim (branch (b == []) _ _ w h2) [
            | inl (e, h3) ↦ delete_local-InStep p w w' v (gone_r (eq_of_== b [] e)) h3
            | inr (_, h3) ↦ copy_to_local-InStep p (state_of lb) w w' v h3
          ]
          | inr (_, h2) ↦ elim (branch (b == entry_hash le) _ _ w h2) [
            | inl (_, h3) ↦ elim (branch (a == []) _ _ w h3) [
              | inl (e, h4) ↦ elim (branch (never_had E run le) _ _ w h4) [
                | inl (_, h5) ↦ copy_to_local-InStep p (state_of lb) w w' v h5
                | inr (_, h5) ↦
                    delete_remote-InStep p (entry_hash le) w w' v (gone_l (eq_of_== a [] e)) h5
              ]
              | inr (_, h4) ↦ copy_to_remote-InStep p (state_of la) w w' v h4
            ]
            | inr (_, h3) ↦
                resolve_divergence-InStep p a b (entry_hash le) (state_of la) (state_of lb) w w' v
                  h3
          ]
        ]
      ]

  -- When `decide` succeeds in a run that is no dry run, the path is in step: both replicas have the
  -- same content and the ledger its hash, or the path is gone from all three.
  pub decide-InStep :
      (p : Text) (w w' : World E) → Ready E run p w → decide E run p w ≡ (done, w') → InStep E p w'
  unfolding decide guard_deletion
  decide-InStep p w w' r h =
      let la = lookup p run.local_snap.files in
      let lb = lookup p run.remote_snap.files in
      let le = lookup p w.files in
      let sha = E.sha256_hex in
      let gone_r : hash_of lb ≡ [] → E.remote.read w.remote p ≡ err not_exist =
        Scanned-missing E.sha256_hex (E.remote.read w.remote p) lb r.hashes r.remote_scanned in
      let gone_l : hash_of la ≡ [] → E.local.read w.local p ≡ err not_exist =
        Scanned-missing E.sha256_hex (E.local.read w.local p) la r.hashes r.local_scanned in
      elim (if_some-cases (lookup p w.tombs) _ _ w h) [
        | inl (_, h1) ↦
            settle-InStep p la lb le w w' r.vault r.local_scanned r.remote_scanned r.no_collision
              r.hashes refl h1
        | inr (tomb, _, h1) ↦ elim (branch (entry_hash le == []) _ _ w h1) [
          | inr (_, h2) ↦
              settle-InStep p la lb le w w' r.vault r.local_scanned r.remote_scanned r.no_collision
                r.hashes refl h2
          | inl (no_l, h2) ↦ elim (branch (hash_of la == [] && hash_of lb == []) _ _ w h2) [
            | inl (e, h3) ↦
                let (ea, eb) = both_true (hash_of la == []) (hash_of lb == []) e in
                subst (InStep E p) (ap (λ z. z.1) h3) (
                  absent (gone_l (eq_of_== (hash_of la) [] ea))
                    (gone_r (eq_of_== (hash_of lb) [] eb))
                    (no_entry le r.entries (eq_of_== (entry_hash le) [] no_l)))
            | inr (_, h3) ↦
                elim (branch (hash_of la == tomb.last_hash && hash_of lb == []) _ _ w h3) [
                  | inl (e, h4) ↦
                      delete_local-InStep p w w' r.vault
                        (gone_r (
                          eq_of_== (hash_of lb) []
                            (both_true (hash_of la == tomb.last_hash) (hash_of lb == []) e).1))
                        h4
                  | inr (_, h4) ↦
                      elim (branch (hash_of lb == tomb.last_hash && hash_of la == []) _ _ w h4) [
                        | inl (e, h5) ↦
                            delete_remote-InStep p tomb.last_hash w w' r.vault
                              (gone_l (
                                eq_of_== (hash_of la) []
                                  (both_true (hash_of lb == tomb.last_hash) (hash_of la == [])
                                    e).1))
                              h5
                        | inr (_, h5) ↦
                            settle-InStep p la lb le (record w { tombs = erase p w.tombs }) w'
                              r.vault r.local_scanned r.remote_scanned r.no_collision r.hashes refl
                              h5
                      ]
                ]
          ]
        ]
      ]
