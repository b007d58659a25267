-- ===== src/Worktree/Run/Begun.antt =====
-- internal/runner/worktree.go, `runWorktree`: a run that has the lock, the ledger and both scans.
use yggsync.Prelude.{ℕ, ◌≡◌, ap, ◌∙◌, Text, Bool}
use yggsync.Prelude.Results.{ok, done, Action, resume, ignore, ◌>>◌}
use yggsync.Backend.{Time}
use yggsync.Ledger.{Ledger, Json}
use yggsync.Ledger.Paths.{dir_name}
use yggsync.Ledger.Storage.{save}
use yggsync.Ledger.Collection.{gc_blobs}
use yggsync.Ledger.Lock.{acquire_lock}
use yggsync.Worktree.State.{Snapshot, Env, World}
use yggsync.Worktree.Run.{
  Options, Replicas, on_hub, advanced, gather, run_paths, released, run_worktree,
}

module _ (E : Env) (json : Json) (decimal : ℕ → Text) (rfc3339 : Time → Text)
    (matches : Text → Bool) (opts : Options) where
  abbrev pub take_lock : Action (Replicas E) (Unit {0})
  take_lock =
      on_hub E json decimal rfc3339 matches opts
        (acquire_lock E.remote json dir_name opts.client_id opts.now 1800000000000)

  -- The writes of the ledger after the loop.
  abbrev pub hub_writes : Ledger → World E → Action E.remote.State (Unit {0})
  hub_writes l w =
      save E.remote json dir_name opts.now (advanced E json decimal rfc3339 matches opts l w)
      >> ignore (gc_blobs E.remote dir_name (advanced E json decimal rfc3339 matches opts l w))

  -- Such a run is what follows, and the release of the lock.
  pub run_worktree-begun :
      (r r1 : Replicas E) (l : Ledger) (ls rs : Snapshot)
      → take_lock r ≡ (done, r1)
      → gather E json decimal rfc3339 matches opts r1 ≡ ok (l, ls, rs)
      → run_worktree E json decimal rfc3339 matches opts r
        ≡ released E json decimal rfc3339 matches opts
            (run_paths E json decimal rfc3339 matches opts l ls rs r1)
  unfolding run_worktree
  run_worktree-begun r r1 l ls rs held gathered =
      let freed = released E json decimal rfc3339 matches opts in
      let rest = λ (x : Ledger × Snapshot × Snapshot) (s : Replicas E).
        run_paths E json decimal rfc3339 matches opts x.0 x.1 x.2 s in
      ap
        (λ o.
          resume o (λ _ s. freed (resume (gather E json decimal rfc3339 matches opts s, s) rest)))
        held
      ∙ ap (λ g. freed (resume (g, r1) rest)) gathered
