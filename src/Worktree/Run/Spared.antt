-- ===== src/Worktree/Run/Spared.antt =====
-- internal/runner/worktree.go, `runWorktree`: the steps of a run on the hub, and the files they spare.
use yggsync.Prelude.{
  ◌++◌, ℕ, ◌≡◌, ◌≢◌, refl, ap, sym, ◌∙◌, Bool, true, false, List, [], ◌∷◌, Text, text_eq, ==_of_eq,
  arith, if◌then◌else◌, ℕ_discrete,
}
use yggsync.Prelude.Strings.{has_prefix}
use yggsync.Prelude.Sorting.{member, sort}
use yggsync.Prelude.Results.{locked, resume-keeps, for_each, pure, fail}
use yggsync.Backend.{Time, IsLawful}
use yggsync.Ledger.{Ledger, Json}
use yggsync.Ledger.Paths.{dir_name, join, lock_file, blobs_dir, blob_path}
use yggsync.Ledger.Collection.{gc_blobs, gc_blobs-elsewhere}
use yggsync.Ledger.Lock.{acquire_lock, release}
use yggsync.Worktree.State.{Env, Setup, World}
use yggsync.Worktree.Operations.Effects.{IsVaultPath}
use yggsync.Worktree.Decide.{sidecar, decide}
use yggsync.Worktree.Decide.Hub.{decide-Keeps}
use yggsync.Worktree.Reconcile.{reconcile}
use yggsync.Worktree.Run.{Options, Replicas, conclude, write_conflicts_report, conflicts_report}
use yggsync.Worktree.Run.Report.{conflict_error}

blob_prefix : (hash : Text) → has_prefix (join dir_name blobs_dir) (blob_path dir_name hash) ≡ true
unfolding blob_path join has_prefix ℕ_discrete
blob_prefix hash = ground arith

-- What no blob's path starts with is no blob's path.
pub unprefixed-IsVaultPath :
    (q : Text) → has_prefix (join dir_name blobs_dir) q ≡ false → IsVaultPath q
unprefixed-IsVaultPath q h hash e =
    cc (sym h ∙ ap (has_prefix (join dir_name blobs_dir)) e ∙ blob_prefix hash)

-- A file of the hub that is none of those that a run writes or removes apart from its paths and the
-- ledger: no blob, not the report of conflicts, and not the lock.
pub record IsSpared (q : Text) : Type 0 where
  pub no_blob : IsVaultPath q
  pub not_collected : has_prefix (join dir_name blobs_dir ++ b'/' ∷ []) q ≡ false
  pub not_report : q ≢ conflicts_report
  pub not_lock : q ≢ join dir_name lock_file

-- However the loop ends, it leaves a file that is neither a path nor a sidecar of it.
pub reconcile-Keeps :
    (E : Env) (run : Setup) (law : IsLawful E.remote) (q : Text) (spared : IsSpared q)
    (ps : List Text) (w : World E)
    → ((p : Text) → member p ps ≡ true → (q ≢ p) × (q ≢ sidecar E run p))
    → E.remote.read (reconcile E run ps w).1.remote q ≡ E.remote.read w.remote q
unfolding reconcile for_each member
reconcile-Keeps E run law q spared [] w clear = refl
reconcile-Keeps E run law q spared (p ∷ ps) w clear =
    let (other, side) = clear p (ground (arith, ==_of_eq p p refl)) in
    resume-keeps (λ z. E.remote.read z.remote q ≡ E.remote.read w.remote q) (decide E run p w)
      (λ _. reconcile E run ps) (decide-Keeps E run law q spared.no_blob p other side w)
      (λ _ s same.
        reconcile-Keeps E run law q spared ps s (λ x m. clear x (ground (arith, m))) ∙ same)

module _ (E : Env) (json : Json) (law : IsLawful E.remote) (decimal : ℕ → Text)
    (rfc3339 : Time → Text) (matches : Text → Bool) (opts : Options) (q : Text)
    (spared : IsSpared q) where
  pub gc_blobs-spares :
      (l : Ledger) (s : E.remote.State)
      → E.remote.read (gc_blobs E.remote dir_name l s).1 q ≡ E.remote.read s q
  gc_blobs-spares l s = gc_blobs-elsewhere E.remote law dir_name l s q spared.not_collected

  report-spares :
      (dry : Bool) (conflicts : List Text) (r : Replicas E)
      → E.remote.read
          ((if dry
              then pure tt
              else write_conflicts_report E json decimal rfc3339 matches opts conflicts)
            r).1.remote
          q
        ≡ E.remote.read r.remote q
  unfolding write_conflicts_report
  report-spares true conflicts r = refl
  report-spares false conflicts r =
      law.write_file_frame conflicts_report _ 0o644 opts.now r.remote q spared.not_report

  pub conclude-spares :
      (conflicts : List Text) (r : Replicas E)
      → E.remote.read (conclude E json decimal rfc3339 matches opts conflicts r).1.remote q
        ≡ E.remote.read r.remote q
  unfolding conclude
  conclude-spares [] r = refl
  conclude-spares (p ∷ ps) r =
      let conflicts = if opts.dry_run then p ∷ ps else sort (p ∷ ps) in
      resume-keeps (λ z. E.remote.read z.remote q ≡ E.remote.read r.remote q)
        ((if opts.dry_run
            then pure tt
            else write_conflicts_report E json decimal rfc3339 matches opts conflicts)
          r)
        (λ _. fail (conflict_error decimal rfc3339 opts.job_name conflicts))
        (report-spares opts.dry_run conflicts r) (λ _ s same. same)

  lock_write-spares :
      (busy : Bool) (content : Text) (s : E.remote.State)
      → E.remote.read
          ((if busy
              then fail locked
              else E.remote.write_file (join dir_name lock_file) content 0o644 opts.now)
            s).1
          q
        ≡ E.remote.read s q
  lock_write-spares true content s = refl
  lock_write-spares false content s =
      law.write_file_frame (join dir_name lock_file) content 0o644 opts.now s q spared.not_lock

  pub acquire_lock-spares :
      (s : E.remote.State)
      → E.remote.read
          (acquire_lock E.remote json dir_name opts.client_id opts.now 1800000000000 s).1
          q
        ≡ E.remote.read s q
  unfolding acquire_lock
  acquire_lock-spares s =
      resume-keeps (λ z. E.remote.read z q ≡ E.remote.read s q)
        (E.remote.mkdir_all dir_name 0o755 s) _ (law.read-mkdir_all dir_name 0o755 s q)
        (λ _ t same. lock_write-spares _ _ t ∙ same)

  pub release-spares :
      (s : E.remote.State)
      → E.remote.read (release E.remote json dir_name s).1 q ≡ E.remote.read s q
  unfolding release
  release-spares s = law.remove_frame (join dir_name lock_file) s q spared.not_lock
