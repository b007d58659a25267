-- ===== src/Worktree/Decide/Conflicts.antt =====
-- internal/runner/worktree.go, `resolveDivergence`: a path that was edited on both sides.
use yggsync.Prelude.{◌≡◌, ◌≢◌, refl, ap, sym, ◌∙◌, false, [], ◌∷◌, ◌++◌, Text}
use yggsync.Prelude.{none, some, text_eq, ==_of_eq, ==_of_ne, codes, arith, length, length-append}
use yggsync.Prelude.Dict.{lookup}
use yggsync.Prelude.Results.{ok, done, resume-ok}
use yggsync.Backend.{IsLawful}
use yggsync.Worktree.State.{FileState, Env, Setup, World, hash_of, entry_hash}
use yggsync.Worktree.Operations.{read_local, read_remote, flag, copy_to_local, write_both}
use yggsync.Worktree.Operations.Effects.{IsVaultPath, copy_to_local-Wrote, write_both-Wrote}
use yggsync.Worktree.Decide.{sidecar, merge_attempt, keep_both, resolve_divergence, settle, decide}

-- The path was edited on both sides: the snapshots and the ledger have three versions of it.
pub record Diverged (E : Env) (run : Setup) (p : Text) (w : World E) : Type 0 where
  pub ours : FileState
  pub theirs : FileState
  pub scanned_ours : lookup p run.local_snap.files ≡ some ours
  pub scanned_theirs : lookup p run.remote_snap.files ≡ some theirs
  pub no_tombstone : lookup p w.tombs ≡ none
  pub present : (ours.hash ≢ []) × (theirs.hash ≢ [])
  pub edited :
      (ours.hash ≢ theirs.hash)
      × (ours.hash ≢ entry_hash (lookup p w.files))
      × (theirs.hash ≢ entry_hash (lookup p w.files))

sidecar-ne : (E : Env) (run : Setup) (p : Text) → p ≢ sidecar E run p
unfolding sidecar
sidecar-ne E run p e = absurd (
    omega (arith, ap length e, length-append {0} p (codes ".mergefail." ++ E.format_stamp run.now)))

module _ (E : Env) (run : Setup) (p : Text) (w : World E) (d : Diverged E run p w) where
  decide_diverged :
      decide E run p w
      ≡ resolve_divergence E run p d.ours.hash d.theirs.hash
          (entry_hash (lookup p w.files))
          d.ours
          d.theirs
          w
  unfolding decide hash_of
  decide_diverged = rw (
    d.no_tombstone,
    d.scanned_ours,
    d.scanned_theirs,
    decide,
    settle,
    ==_of_ne d.ours.hash d.theirs.hash d.edited.0,
    ==_of_ne d.ours.hash (entry_hash (lookup p w.files)) d.edited.1,
    ==_of_ne d.theirs.hash (entry_hash (lookup p w.files)) d.edited.2,
  )

  resolve_unmerged :
      (ca cb : Text)
      → E.local.read w.local p ≡ ok ca
      → E.remote.read w.remote p ≡ ok cb
      → merge_attempt E run w.remote (entry_hash (lookup p w.files)) ca cb ≡ none
      → decide E run p w ≡ keep_both E run p ca d.ours d.theirs w
  unfolding resolve_divergence read_local read_remote
  resolve_unmerged ca cb ra rb unmerged =
      decide_diverged
      ∙ rw (
        resolve_divergence,
        ==_of_ne d.ours.hash [] d.present.0,
        ==_of_ne d.theirs.hash [] d.present.1,
        ra,
        rb,
        unmerged,
      )

  module _ (local_law : IsLawful E.local) (remote_law : IsLawful E.remote)
      (real : run.dry_run ≡ false) where
    -- A conflict that does not merge loses nothing: the hub's version is at the path and the local one
    -- at its sidecar, on both replicas, and the path is reported.
    pub unmerged_keeps_both :
        (ca cb : Text) (w' : World E)
        → IsVaultPath p
        → IsVaultPath (sidecar E run p)
        → E.local.read w.local p ≡ ok ca
        → E.remote.read w.remote p ≡ ok cb
        → merge_attempt E run w.remote (entry_hash (lookup p w.files)) ca cb ≡ none
        → decide E run p w ≡ (done, w')
        → (E.local.read w'.local p ≡ ok cb)
          × (E.remote.read w'.remote p ≡ ok cb)
          × (E.local.read w'.local (sidecar E run p) ≡ ok ca)
          × (E.remote.read w'.remote (sidecar E run p) ≡ ok ca)
          × (w'.conflicts ≡ w.conflicts ++ p ∷ [])
    unfolding keep_both flag
    unmerged_keeps_both ca cb w' v vs ra rb unmerged h =
        let side = sidecar E run p in
        let w0 = (flag E run p w).1 in
        let (_, w1, h1, h2) =
          resume-ok (write_both E run side ca d.ours w0) (λ _. copy_to_local E run p d.theirs)
            (sym (resolve_unmerged ca cb ra rb unmerged) ∙ h) in
        let side_written =
          write_both-Wrote E run local_law remote_law real side ca d.ours w0 w1 h1 in
        let (c, rc, written) =
          copy_to_local-Wrote E run local_law remote_law real p d.theirs w1 w' h2 in
        let ne = sidecar-ne E run p in
        let same : c ≡ cb = cc (rc, rb, side_written.remote_reads p v, ==_of_ne p side ne) in
        (
          rw (written.local_reads p v, ==_of_eq p p refl, same),
          rw (written.remote_reads p v, ==_of_eq p p refl, same),
          rw (
            written.local_reads side vs,
            ==_of_ne side p (λ e. ne (sym e)),
            side_written.local_reads side vs,
            ==_of_eq side side refl,
          ),
          rw (
            written.remote_reads side vs,
            ==_of_ne side p (λ e. ne (sym e)),
            side_written.remote_reads side vs,
            ==_of_eq side side refl,
          ),
          written.flags ∙ side_written.flags,
        )
