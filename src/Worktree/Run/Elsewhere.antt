-- ===== src/Worktree/Run/Elsewhere.antt =====
-- internal/runner/worktree.go, `runWorktree`: the files of the hub that a run has nothing to do with.
use yggsync.Prelude.{
  ℕ, ◌≡◌, ◌≢◌, refl, ap, sym, ◌∙◌, Bool, true, false, [], ◌∷◌, ◌++◌, Text, text_eq, if◌then◌else◌,
}
use yggsync.Prelude.Sorting.{member}
use yggsync.Prelude.Results.{ok, err, Done, done, resume-keeps, pure, ignore}
use yggsync.Backend.{Time, IsLawful}
use yggsync.Ledger.{Ledger, Json}
use yggsync.Ledger.Paths.{dir_name, join, lock_file, blobs_dir}
use yggsync.Ledger.Storage.{save}
use yggsync.Ledger.Storage.Frame.{save-read}
use yggsync.Ledger.Collection.{gc_blobs}
use yggsync.Worktree.State.{Snapshot, Env, World}
use yggsync.Worktree.Decide.{sidecar}
use yggsync.Worktree.Reconcile.{reconcile}
use yggsync.Worktree.Run.Begun.{take_lock, hub_writes, run_worktree-begun}
use yggsync.Worktree.Run.{
  Options, Replicas, on_hub, setup, advanced, conclude, finish, after_loop, gather, run_paths,
  released, run_worktree, conflicts_report,
}
use yggsync.Worktree.Run.Settled.{IsOutside, not_joined, has_prefix-longer, outside-IsOther}
use yggsync.Worktree.Run.Rest.{start, paths_of}
use yggsync.Worktree.Run.Spared.{
  IsSpared, unprefixed-IsVaultPath, reconcile-Keeps, gc_blobs-spares, conclude-spares,
  acquire_lock-spares, release-spares,
}
use yggsync.Worktree.Run.Interrupted.{refused-keeps}

-- A file outside the ledger's directory that is not the report of conflicts.
outside-IsSpared : (q : Text) → IsOutside q → q ≢ conflicts_report → IsSpared q
unfolding join
outside-IsSpared q out not_report = record {
  no_blob = unprefixed-IsVaultPath q (has_prefix-longer (dir_name ++ b'/' ∷ []) blobs_dir q out);
  not_collected = has_prefix-longer (dir_name ++ b'/' ∷ []) (blobs_dir ++ b'/' ∷ []) q out;
  not_report = not_report;
  not_lock = not_joined q lock_file out;
}

module _ (E : Env) (json : Json) (law : IsLawful E.remote) (decimal : ℕ → Text)
    (rfc3339 : Time → Text) (matches : Text → Bool) (opts : Options) (q : Text) where
  -- The file is no path of a run, and no sidecar of one.
  abbrev pub IsUnlisted : Ledger → Snapshot → Snapshot → Type 0
  IsUnlisted l ls rs =
      (p : Text)
      → member p (paths_of E json law decimal rfc3339 matches opts l ls rs) ≡ true
      → (q ≢ p) × (q ≢ sidecar E (setup E json decimal rfc3339 matches opts l ls rs) p)

module _ (E : Env) (json : Json) (law : IsLawful E.remote) (decimal : ℕ → Text)
    (rfc3339 : Time → Text) (matches : Text → Bool) (opts : Options) (q : Text) (out : IsOutside q)
    (not_report : q ≢ conflicts_report) where
  abbrev spared : IsSpared q
  spared = outside-IsSpared q out not_report

  hub_writes-spare :
      (l : Ledger) (w : World E) (s : E.remote.State)
      → E.remote.read (hub_writes E json decimal rfc3339 matches opts l w s).1 q ≡ E.remote.read s q
  hub_writes-spare l w s =
      let full = advanced E json decimal rfc3339 matches opts l w in
      resume-keeps (λ z. E.remote.read z q ≡ E.remote.read s q)
        (save E.remote json dir_name opts.now full s)
        (λ _. ignore (gc_blobs E.remote dir_name full))
        (save-read E.remote law json dir_name opts.now full s q (outside-IsOther q out))
        (λ _ t same. gc_blobs-spares E json law decimal rfc3339 matches opts q spared full t ∙ same)

  writes-spare :
      (dry : Bool) (l : Ledger) (w : World E) (r : Replicas E)
      → E.remote.read
          ((if dry
              then pure tt
              else on_hub E json decimal rfc3339 matches opts
                  (hub_writes E json decimal rfc3339 matches opts l w))
            r).1.remote
          q
        ≡ E.remote.read r.remote q
  writes-spare true l w r = refl
  writes-spare false l w r = hub_writes-spare l w r.remote

  finish-spares :
      (l : Ledger) (w : World E) (r : Replicas E)
      → E.remote.read (finish E json decimal rfc3339 matches opts l w r).1.remote q
        ≡ E.remote.read r.remote q
  unfolding finish
  finish-spares l w r =
      resume-keeps (λ z. E.remote.read z.remote q ≡ E.remote.read r.remote q)
        ((if opts.dry_run
            then pure tt
            else on_hub E json decimal rfc3339 matches opts
                (hub_writes E json decimal rfc3339 matches opts l w))
          r)
        (λ _. conclude E json decimal rfc3339 matches opts w.conflicts)
        (writes-spare opts.dry_run l w r)
        (λ _ s same.
          conclude-spares E json law decimal rfc3339 matches opts q spared w.conflicts s ∙ same)

  after_loop-spares :
      (l : Ledger) (o : Done × World E)
      → E.remote.read (after_loop E json decimal rfc3339 matches opts l o).1.remote q
        ≡ E.remote.read o.1.remote q
  after_loop-spares l (err e, w) = refl
  after_loop-spares l (ok _, w) = finish-spares l w (record { local = w.local; remote = w.remote })

  run_paths-spares :
      (l : Ledger) (ls rs : Snapshot) (r : Replicas E)
      → IsUnlisted E json law decimal rfc3339 matches opts q l ls rs
      → E.remote.read (run_paths E json decimal rfc3339 matches opts l ls rs r).1.remote q
        ≡ E.remote.read r.remote q
  unfolding run_paths
  run_paths-spares l ls rs r unlisted =
      let run = setup E json decimal rfc3339 matches opts l ls rs in
      let paths = paths_of E json law decimal rfc3339 matches opts l ls rs in
      let begin = start E json law decimal rfc3339 matches opts l r in
      let looped = reconcile E run paths begin in
      refused-keeps E json law decimal rfc3339 matches opts
        (λ o. E.remote.read o.1.remote q ≡ E.remote.read r.remote q) opts.allow_mass_delete _
        (after_loop E json decimal rfc3339 matches opts l looped) r _
        (after_loop-spares l looped ∙ reconcile-Keeps E run law q spared paths begin unlisted) refl

  -- However a run ends, once it has the lock and has loaded and scanned, a file of the hub outside the
  -- ledger's directory that is not the report of conflicts, and neither a path of the run, as the
  -- ledger and the filtered scans give them, nor the sidecar of one, reads as before.
  pub run_worktree-spares :
      (r r1 : Replicas E) (l : Ledger) (ls rs : Snapshot)
      → take_lock E json decimal rfc3339 matches opts r ≡ (done, r1)
      → gather E json decimal rfc3339 matches opts r1 ≡ ok (l, ls, rs)
      → IsUnlisted E json law decimal rfc3339 matches opts q l ls rs
      → E.remote.read (run_worktree E json decimal rfc3339 matches opts r).1.remote q
        ≡ E.remote.read r.remote q
  unfolding run_worktree
  run_worktree-spares r r1 l ls rs held gathered unlisted =
      let freed = released E json decimal rfc3339 matches opts in
      let end = run_paths E json decimal rfc3339 matches opts l ls rs r1 in
      let same : run_worktree E json decimal rfc3339 matches opts r ≡ freed end =
        run_worktree-begun E json decimal rfc3339 matches opts r r1 l ls rs held gathered in
      ap (λ o. E.remote.read o.1.remote q) same
      ∙ release-spares E json law decimal rfc3339 matches opts q spared end.1.remote
      ∙ run_paths-spares l ls rs r1 unlisted
      ∙ ap (λ o. E.remote.read o.1.remote q) (sym held)
      ∙ acquire_lock-spares E json law decimal rfc3339 matches opts q spared r.remote
