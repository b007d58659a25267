-- ===== src/Worktree/Run/Interrupted.antt =====
-- internal/runner/worktree.go, `runWorktree`: the hub's ledger after a run, wherever the run has failed.
use yggsync.Prelude.{
  ℕ, ◌≡◌, refl, sym, subst, ◌∙◌, ◌⊎◌, inl, inr, Bool, true, false, Text, text_eq, if◌then◌else◌,
}
use yggsync.Prelude.Sorting.{member}
use yggsync.Prelude.Results.{Error, Result, ok, err, Done, done, resume-keeps, pure, ignore}
use yggsync.Backend.{Time, IsLawful}
use yggsync.Ledger.{Ledger, Json, RoundTrips}
use yggsync.Ledger.Paths.{dir_name}
use yggsync.Ledger.Storage.{load, save, stamped}
use yggsync.Ledger.Storage.Frame.{load-same}
use yggsync.Ledger.Storage.Laws.{IsSound, IsSound-reads, load-save_any}
use yggsync.Ledger.Collection.{gc_blobs}
use yggsync.Worktree.State.{Snapshot, Env, World}
use yggsync.Worktree.Reconcile.{reconcile}
use yggsync.Worktree.Run.Begun.{take_lock, hub_writes, run_worktree-begun}
use yggsync.Worktree.Run.{
  Options, Replicas, on_hub, setup, advanced, conclude, finish, after_loop, gather, run_paths,
  released, run_worktree,
}
use yggsync.Worktree.Run.Spared.{
  gc_blobs-spares, conclude-spares, acquire_lock-spares, release-spares, reconcile-Keeps,
}
use yggsync.Worktree.Run.LedgerFiles.{
  primary, backup, IsClear, IsOther-loaded, loaded-IsSpared, SameLedger, spared-SameLedger,
}
use yggsync.Worktree.Run.Rest.{start, paths_of}

module _ (E : Env) (json : Json) (law : IsLawful E.remote) (decimal : ℕ → Text)
    (rfc3339 : Time → Text) (matches : Text → Bool) (opts : Options) where
  abbrev loads : E.remote.State → Result Ledger
  loads s = load E.remote json dir_name s

  same-loads : (s t : E.remote.State) → SameLedger E s t → loads t ≡ loads s
  same-loads s t same = load-same E.remote law json dir_name s t (same _ primary) (same _ backup)

  -- The ledger of before, or the one that the run saves, whole.
  abbrev pub OldOrSaved : Ledger → World E → E.remote.State → E.remote.State → Type 0
  OldOrSaved l w s t =
      (loads t ≡ loads s)
      ⊎ (loads t ≡ ok (stamped (advanced E json decimal rfc3339 matches opts l w)))

  OldOrSaved-same :
      (l : Ledger) (w : World E) (s t u : E.remote.State)
      → SameLedger E t u
      → OldOrSaved l w s t
      → OldOrSaved l w s u
  OldOrSaved-same l w s t u same (inl old) = inl (same-loads t u same ∙ old)
  OldOrSaved-same l w s t u same (inr new) = inr (same-loads t u same ∙ new)

  OldOrSaved-before :
      (l : Ledger) (w : World E) (s t u : E.remote.State)
      → SameLedger E s t
      → OldOrSaved l w t u
      → OldOrSaved l w s u
  OldOrSaved-before l w s t u same (inl old) = inl (old ∙ same-loads s t same)
  OldOrSaved-before l w s t u same (inr new) = inr new

  hub_writes-OldOrSaved :
      (l : Ledger) (w : World E) (s : E.remote.State)
      → RoundTrips json (stamped (advanced E json decimal rfc3339 matches opts l w))
      → IsSound E.remote json law dir_name s
      → OldOrSaved l w s (hub_writes E json decimal rfc3339 matches opts l w s).1
  hub_writes-OldOrSaved l w s back sound =
      let full = advanced E json decimal rfc3339 matches opts l w in
      resume-keeps (OldOrSaved l w s) (save E.remote json dir_name opts.now full s)
        (λ _. ignore (gc_blobs E.remote dir_name full))
        (load-save_any E.remote json law dir_name full opts.now back s sound)
        (λ _ t got.
          OldOrSaved-same l w s t _
            (spared-SameLedger E t _
              (λ q spared. gc_blobs-spares E json law decimal rfc3339 matches opts q spared full t))
            got)

  -- The writes of the ledger after the loop, which a dry run leaves out.
  writes-OldOrSaved :
      (dry : Bool) (l : Ledger) (w : World E) (r : Replicas E)
      → RoundTrips json (stamped (advanced E json decimal rfc3339 matches opts l w))
      → IsSound E.remote json law dir_name r.remote
      → OldOrSaved l w r.remote
          ((if dry
              then pure tt
              else on_hub E json decimal rfc3339 matches opts
                  (hub_writes E json decimal rfc3339 matches opts l w))
            r).1.remote
  writes-OldOrSaved true l w r back sound = inl refl
  writes-OldOrSaved false l w r back sound = hub_writes-OldOrSaved l w r.remote back sound

  finish-OldOrSaved :
      (l : Ledger) (w : World E) (r : Replicas E)
      → RoundTrips json (stamped (advanced E json decimal rfc3339 matches opts l w))
      → IsSound E.remote json law dir_name r.remote
      → OldOrSaved l w r.remote (finish E json decimal rfc3339 matches opts l w r).1.remote
  unfolding finish
  finish-OldOrSaved l w r back sound =
      resume-keeps (λ z. OldOrSaved l w r.remote z.remote)
        ((if opts.dry_run
            then pure tt
            else on_hub E json decimal rfc3339 matches opts
                (hub_writes E json decimal rfc3339 matches opts l w))
          r)
        (λ _. conclude E json decimal rfc3339 matches opts w.conflicts)
        (writes-OldOrSaved opts.dry_run l w r back sound)
        (λ _ s got.
          OldOrSaved-same l w r.remote s.remote _
            (spared-SameLedger E s.remote _ (λ q spared.
              conclude-spares E json law decimal rfc3339 matches opts q spared w.conflicts s))
            got)

  after_loop-OldOrSaved :
      (l : Ledger) (s : E.remote.State) (out : Done × World E)
      → RoundTrips json (stamped (advanced E json decimal rfc3339 matches opts l out.1))
      → IsSound E.remote json law dir_name s
      → SameLedger E s out.1.remote
      → OldOrSaved l out.1 s (after_loop E json decimal rfc3339 matches opts l out).1.remote
  after_loop-OldOrSaved l s (err e, w) back sound same = inl (same-loads s w.remote same)
  after_loop-OldOrSaved l s (ok _, w) back sound same =
      let first : Replicas E = record { local = w.local; remote = w.remote } in
      OldOrSaved-before l w s w.remote _ same (
        finish-OldOrSaved l w first back
          (IsSound-reads E.remote json law dir_name s w.remote (same _ primary) sound))

  -- A run that is not refused is its loop with what follows.
  pub refused-keeps :
      (P : Done × Replicas E → Type 0) (free refused : Bool) (x : Done × Replicas E)
      (r : Replicas E) (e : Error)
      → P x
      → P (err e, r)
      → P (if free then x else if refused then (err e, r) else x)
  refused-keeps P true refused x r e h k = h
  refused-keeps P false true x r e h k = k
  refused-keeps P false false x r e h k = h

  -- The world that the loop of a run ends in, whether or not it succeeds.
  abbrev pub end_of_loop : Ledger → Snapshot → Snapshot → Replicas E → World E
  end_of_loop l ls rs r =
      (reconcile E (setup E json decimal rfc3339 matches opts l ls rs)
        (paths_of E json law decimal rfc3339 matches opts l ls rs)
        (start E json law decimal rfc3339 matches opts l r)).1

  run_paths-OldOrSaved :
      (l : Ledger) (ls rs : Snapshot) (r : Replicas E)
      → ((p : Text)
          → member p (paths_of E json law decimal rfc3339 matches opts l ls rs) ≡ true
          → IsClear E (setup E json decimal rfc3339 matches opts l ls rs) p)
      → RoundTrips json
          (stamped (advanced E json decimal rfc3339 matches opts l (end_of_loop l ls rs r)))
      → IsSound E.remote json law dir_name r.remote
      → OldOrSaved l
          (end_of_loop l ls rs r)
          r.remote
          (run_paths E json decimal rfc3339 matches opts l ls rs r).1.remote
  unfolding run_paths
  run_paths-OldOrSaved l ls rs r clear back sound =
      let run = setup E json decimal rfc3339 matches opts l ls rs in
      let paths = paths_of E json law decimal rfc3339 matches opts l ls rs in
      let begin = start E json law decimal rfc3339 matches opts l r in
      let out = reconcile E run paths begin in
      refused-keeps (λ o. OldOrSaved l (end_of_loop l ls rs r) r.remote o.1.remote)
        opts.allow_mass_delete _ (after_loop E json decimal rfc3339 matches opts l out) r _
        (after_loop-OldOrSaved l r.remote out back sound (λ q loaded.
          reconcile-Keeps E run law q (loaded-IsSpared q loaded) paths begin (λ p m.
            (IsOther-loaded p q (clear p m).0 loaded, IsOther-loaded _ q (clear p m).1 loaded))))
        (inl refl)

  -- However a run ends, over paths that are not the ledger's files and have sidecars that are not, once
  -- it has the lock and has loaded and scanned, the next load from the hub finds the ledger of before the
  -- run, or the one of the run's loop, whole, where the ledger of before was sound and the new one's JSON
  -- reads back.
  pub run_worktree-OldOrSaved :
      (r r1 : Replicas E) (l : Ledger) (ls rs : Snapshot)
      → take_lock E json decimal rfc3339 matches opts r ≡ (done, r1)
      → gather E json decimal rfc3339 matches opts r1 ≡ ok (l, ls, rs)
      → ((p : Text)
          → member p (paths_of E json law decimal rfc3339 matches opts l ls rs) ≡ true
          → IsClear E (setup E json decimal rfc3339 matches opts l ls rs) p)
      → RoundTrips json
          (stamped (advanced E json decimal rfc3339 matches opts l (end_of_loop l ls rs r1)))
      → IsSound E.remote json law dir_name r.remote
      → OldOrSaved l
          (end_of_loop l ls rs r1)
          r.remote
          (run_worktree E json decimal rfc3339 matches opts r).1.remote
  unfolding run_worktree
  run_worktree-OldOrSaved r r1 l ls rs held gathered clear back sound =
      let freed = released E json decimal rfc3339 matches opts in
      let end = run_paths E json decimal rfc3339 matches opts l ls rs r1 in
      let same : run_worktree E json decimal rfc3339 matches opts r ≡ freed end =
        run_worktree-begun E json decimal rfc3339 matches opts r r1 l ls rs held gathered in
      let locked_same : SameLedger E r.remote r1.remote =
        subst (λ o. SameLedger E r.remote o.1.remote) held
          (spared-SameLedger E r.remote _ (λ q spared.
            acquire_lock-spares E json law decimal rfc3339 matches opts q spared r.remote)) in
      let after = run_paths-OldOrSaved l ls rs r1 clear back (
        IsSound-reads E.remote json law dir_name r.remote r1.remote (locked_same _ primary)
          sound) in
      subst (λ o. OldOrSaved l (end_of_loop l ls rs r1) r.remote o.1.remote) (sym same)
        (OldOrSaved-same l (end_of_loop l ls rs r1) r.remote end.1.remote _
          (spared-SameLedger E end.1.remote _ (λ q spared.
            release-spares E json law decimal rfc3339 matches opts q spared end.1.remote))
          (OldOrSaved-before l (end_of_loop l ls rs r1) r.remote r1.remote end.1.remote locked_same
            after))
