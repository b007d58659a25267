-- ===== src/Worktree/Run/Rest.antt =====
-- internal/runner/worktree.go, `runWorktree`: a run after one that has settled its paths.
use yggsync.Prelude.{
  ℕ, ◌≡◌, refl, ap, sym, subst, ◌∙◌, Bool, true, false, List, [], ◌∷◌, Text, text_eq, ==_of_eq,
  arith, if◌then◌else◌, length,
}
use yggsync.Prelude.Dict.{Dict, lookup}
use yggsync.Prelude.Int.{ℤ}
use yggsync.Worktree.Plan.{planned, planned_remote_deletes, mass_delete}
use yggsync.Prelude.Sorting.{member}
use yggsync.Prelude.Results.{Error, ok, err, Done, done, resume, for_each}
use yggsync.Backend.{Time, IsLawful}
use yggsync.Ledger.{FileEntry, Ledger, Json}
use yggsync.Ledger.Paths.{dir_name}
use yggsync.Ledger.Storage.{load}
use yggsync.Worktree.State.{FileState, Snapshot, Env, Setup, World, hash_of}
use yggsync.Worktree.Decide.Readiness.{InStep}
use yggsync.Worktree.Decide.Rest.{IsScanned, decide-rests, same_hashes}
use yggsync.Worktree.Reconcile.{reconcile}
use yggsync.Worktree.Run.{Options, Replicas, setup, finish, after_loop, run_paths, union_paths}
use yggsync.Worktree.Run.Settled.{Settled}

reconcile-rests :
    (E : Env) (run : Setup) (ps : List Text) (w : World E)
    → ((q : Text) → member q ps ≡ true → IsScanned E run q w × InStep E q w)
    → reconcile E run ps w ≡ (done, w)
unfolding reconcile for_each member
reconcile-rests E run [] w quiet = refl
reconcile-rests E run (p ∷ ps) w quiet =
    let (scanned, step) = quiet p (ground (arith, ==_of_eq p p refl)) in
    ap (λ out. resume out (λ _. reconcile E run ps)) (decide-rests E run p w scanned step)
    ∙ reconcile-rests E run ps w (λ q m. quiet q (ground (arith, m)))

-- A run that plans no deletion is not refused.
not_refused :
    {S : Type 0} (free : Bool) (deletes : List Text) (tracked : ℕ) (x : Done × S) (e : Error)
    (s : S)
    → deletes ≡ []
    → (if free then x else if mass_delete (length deletes) tracked then (err e, s) else x) ≡ x
unfolding mass_delete
not_refused true deletes tracked x e s h = refl
not_refused false [] tracked x e s h = refl
not_refused false (p ∷ ps) tracked x e s h = absurd cc

module _ (E : Env) (json : Json) (law : IsLawful E.remote) (decimal : ℕ → Text)
    (rfc3339 : Time → Text) (matches : Text → Bool) (opts : Options) where
  abbrev pub start : Ledger → Replicas E → World E
  start l r = record {
    local = r.local;
    remote = r.remote;
    files = l.files;
    tombs = l.tombstones;
    conflicts = [];
  }

  -- The ledger that is loaded is the one under which the path is settled.
  Settled-InStep :
      (q : Text) (l : Ledger) (r : Replicas E)
      → load E.remote json dir_name r.remote ≡ ok l
      → Settled E json law q r
      → InStep E q (start l r)
  Settled-InStep q l r loaded settled =
      let same : settled.ledger ≡ l = cc (sym settled.loaded ∙ loaded) in
      subst (λ x. InStep E q (start x r)) same settled.in_step

  -- The pre-pass counts no deletion where the snapshots agree.
  planned_remote_deletes-none :
      (files : Dict Text FileEntry) (local_files remote_files : Dict Text FileState) (cursor : ℤ)
      (ps : List Text)
      → ((q : Text)
          → member q ps ≡ true
          → hash_of (lookup q local_files) ≡ hash_of (lookup q remote_files))
      → planned_remote_deletes files local_files remote_files cursor ps ≡ []
  unfolding planned_remote_deletes planned member
  planned_remote_deletes-none files local_files remote_files cursor [] agree = refl
  planned_remote_deletes-none files local_files remote_files cursor (p ∷ ps) agree =
      rw
        (
          ==_of_eq (hash_of (lookup p local_files)) (hash_of (lookup p remote_files))
              (agree p (ground (arith, ==_of_eq p p refl))),
          planned_remote_deletes-none files local_files remote_files cursor ps
              (λ q m. agree q (ground (arith, m))),
        )
        refl

  abbrev pub paths_of : Ledger → Snapshot → Snapshot → List Text
  paths_of l ls rs = union_paths l.files l.tombstones ls.files rs.files

  -- Where each path of a run is settled under the ledger that the run loads, and its scans are true, the
  -- run is not refused and its loop changes nothing: all that it does is to finish with the ledger's
  -- files and tombstones as they are.
  pub run_paths-rests :
      (l : Ledger) (ls rs : Snapshot) (r : Replicas E)
      → load E.remote json dir_name r.remote ≡ ok l
      → ((q : Text)
          → member q (paths_of l ls rs) ≡ true
          → Settled E json law q r
            × IsScanned E (setup E json decimal rfc3339 matches opts l ls rs) q (start l r))
      → run_paths E json decimal rfc3339 matches opts l ls rs r
        ≡ finish E json decimal rfc3339 matches opts l (start l r) r
  unfolding run_paths
  run_paths-rests l ls rs r loaded settled =
      let run = setup E json decimal rfc3339 matches opts l ls rs in
      let step = λ (q : Text) (m : member q (paths_of l ls rs) ≡ true).
        Settled-InStep q l r loaded (settled q m).0 in
      let loop : reconcile E run (paths_of l ls rs) (start l r) ≡ (done, start l r) =
        reconcile-rests E run (paths_of l ls rs) (start l r) (λ q m. ((settled q m).1, step q m)) in
      let none_planned =
        planned_remote_deletes-none l.files ls.files rs.files run.cursor (paths_of l ls rs)
          (λ q m. same_hashes E run q (start l r) (settled q m).1 (step q m)) in
      not_refused opts.allow_mass_delete _ (length l.files) _ _ r none_planned
      ∙ ap (after_loop E json decimal rfc3339 matches opts l) loop
