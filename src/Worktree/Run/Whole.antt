-- ===== src/Worktree/Run/Whole.antt =====
-- internal/runner/worktree.go, `runWorktree`, from the lock to its release.
use yggsync.Prelude.{sym, ℕ, ◌≡◌, ◌≢◌, refl, ap, subst, ◌∙◌, Bool, true, false, Text, text_eq}
use yggsync.Prelude.Sorting.{member}
use yggsync.Prelude.Results.{ok, err, Done, done}
use yggsync.Backend.{Time, IsLawful}
use yggsync.Ledger.{Ledger, Json, RoundTrips}
use yggsync.Ledger.Paths.{dir_name, join, join-injective, ledger_file, bak_file, lock_file}
use yggsync.Ledger.Lock.{release}
use yggsync.Ledger.Storage.{stamped}
use yggsync.Ledger.Storage.Frame.{load-same}
use yggsync.Worktree.State.{Snapshot, Env, World}
use yggsync.Worktree.Decide.Readiness.{present, absent, Ready}
use yggsync.Worktree.Reconcile.{Separate, reconcile}
use yggsync.Worktree.Run.Begun.{take_lock, run_worktree-begun}
use yggsync.Worktree.Run.{
  Options, Replicas, setup, advanced, gather, run_paths, released, run_worktree,
}
use yggsync.Worktree.Run.Settled.{
  IsOutside, not_joined, Settled, start, paths_of, run_paths-Settled,
}

lock_apart :
    (dir : Text)
    → (join dir ledger_file ≢ join dir lock_file) × (join dir bak_file ≢ join dir lock_file)
lock_apart dir = (
  λ e. cc (join-injective dir ledger_file lock_file e),
  λ e. cc (join-injective dir bak_file lock_file e),
)

-- The release of the lock changes no path that a run settles.
release-Settled :
    (E : Env) (json : Json) (law : IsLawful E.remote) (p : Text) (r : Replicas E)
    → IsOutside p
    → Settled E json law p r
    → Settled E json law p
        (record { local = r.local; remote = (release E.remote json dir_name r.remote).1 })
unfolding release
release-Settled E json law p r out s =
    let lock = join dir_name lock_file in
    let same = law.remove_frame lock r.remote p (not_joined p lock_file out) in
    record {
      ledger = s.ledger;
      loaded =
          load-same E.remote law json dir_name r.remote (E.remote.remove lock r.remote).1
            (law.remove_frame lock r.remote (join dir_name ledger_file) (lock_apart dir_name).0)
            (law.remove_frame lock r.remote (join dir_name bak_file) (lock_apart dir_name).1)
          ∙ s.loaded;
      in_step = elim (s.in_step) [
        | present c l h e ↦ present c l (same ∙ h) e
        | absent l h e ↦ absent l (same ∙ h) e
      ];
    }

module _ (E : Env) (json : Json) (local_law : IsLawful E.local) (law : IsLawful E.remote)
    (decimal : ℕ → Text) (rfc3339 : Time → Text) (matches : Text → Bool) (opts : Options)
    (real : opts.dry_run ≡ false) where
  released-Settled :
      (p : Text) (out : Done × Replicas E) (r' : Replicas E)
      → IsOutside p
      → ((r2 : Replicas E) → out ≡ (done, r2) → Settled E json law p r2)
      → released E json decimal rfc3339 matches opts out ≡ (done, r')
      → Settled E json law p r'
  released-Settled p (err e, r2) r' outside settled h = absurd cc
  released-Settled p (ok _, r2) r' outside settled h =
      subst (Settled E json law p) (ap (λ z. z.1) h)
        (release-Settled E json law p r2 outside (settled r2 refl))

  -- When a run that is no dry run succeeds, on lawful replicas, it has taken the lock, and what it has
  -- then loaded and scanned is true of separate paths and its loop succeeds, every path of it outside the
  -- ledger's directory is settled: the ledger that the next run loads from the hub has the hash of the
  -- content that both replicas have, or no entry for a path that both lack, where the JSON of the ledger
  -- reads back.
  pub run_worktree-Settled :
      (r r1 r' : Replicas E) (l : Ledger) (ls rs : Snapshot) (w : World E)
      → take_lock E json decimal rfc3339 matches opts r ≡ (done, r1)
      → gather E json decimal rfc3339 matches opts r1 ≡ ok (l, ls, rs)
      → Separate E
          (setup E json decimal rfc3339 matches opts l ls rs)
          (paths_of E json local_law law decimal rfc3339 matches opts real l ls rs)
      → ((q : Text)
          → member q (paths_of E json local_law law decimal rfc3339 matches opts real l ls rs)
            ≡ true
          → Ready E
              (setup E json decimal rfc3339 matches opts l ls rs)
              q
              (start E json local_law law decimal rfc3339 matches opts real l r1))
      → reconcile E
          (setup E json decimal rfc3339 matches opts l ls rs)
          (paths_of E json local_law law decimal rfc3339 matches opts real l ls rs)
          (start E json local_law law decimal rfc3339 matches opts real l r1)
        ≡ (done, w)
      → RoundTrips json (stamped (advanced E json decimal rfc3339 matches opts l w))
      → run_worktree E json decimal rfc3339 matches opts r ≡ (done, r')
      → (q : Text)
      → member q (paths_of E json local_law law decimal rfc3339 matches opts real l ls rs) ≡ true
      → IsOutside q
      → Settled E json law q r'
  run_worktree-Settled r r1 r' l ls rs w held gathered separate ready loop back h q listed out =
      released-Settled q (run_paths E json decimal rfc3339 matches opts l ls rs r1) r' out
        (λ r2 ran.
          run_paths-Settled E json local_law law decimal rfc3339 matches opts real l ls rs r1 r2 w
            separate ready loop back ran q listed out)
        (sym (run_worktree-begun E json decimal rfc3339 matches opts r r1 l ls rs held gathered)
          ∙ h)
