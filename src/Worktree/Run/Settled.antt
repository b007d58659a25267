-- ===== src/Worktree/Run/Settled.antt =====
-- internal/runner/worktree.go, `runWorktree` between the lock and its release: what a run leaves.
use yggsync.Prelude.{
  ℕ, ◌≡◌, ◌≢◌, refl, ap, sym, subst, ◌∙◌, Bool, true, false, List, [], ◌∷◌, ◌++◌, Text, ◌==◌,
  text_eq, nat_eq, if◌then◌else◌, arith, Bool-cases, inl, inr, ℕ_discrete,
}
use yggsync.Prelude.Int.{pos, int_eq}
use yggsync.Prelude.Dict.{lookup}
use yggsync.Prelude.Strings.{has_prefix}
use yggsync.Prelude.Sorting.{member, sort}
use yggsync.Prelude.Results.{
  Error, ok, err, Done, done, Action, ignore, pure, fail, resume, resume-ok, ◌>>◌,
}
use yggsync.Backend.{Time, IsLawful}
use yggsync.Ledger.{Ledger, Json, RoundTrips, ensure_maps}
use yggsync.Ledger.Paths.{dir_name, join, ledger_file, bak_file, blobs_dir}
use yggsync.Ledger.Storage.{load, save, stamped}
use yggsync.Ledger.Storage.Frame.{IsOther, save-read, load-same}
use yggsync.Ledger.Storage.Laws.{load-save}
use yggsync.Ledger.Collection.{gc_blobs, gc_blobs-elsewhere}
use yggsync.Worktree.State.{Snapshot, Env, World, entry_hash}
use yggsync.Worktree.Decide.Readiness.{InStep, present, absent, Ready}
use yggsync.Worktree.Reconcile.{Separate, reconcile, reconcile-InStep}
use yggsync.Worktree.Run.Report.{conflict_error}
use yggsync.Worktree.Run.{
  Options, Replicas, on_hub, setup, advanced, conclude, write_conflicts_report, finish, after_loop,
  run_paths, union_paths,
}

-- A path that is not in the ledger's directory, like all that a scan gives.
abbrev pub IsOutside : Text → Type 0
IsOutside q = has_prefix (dir_name ++ b'/' ∷ []) q ≡ false

pub has_prefix-longer : (a b q : Text) → has_prefix a q ≡ false → has_prefix (a ++ b) q ≡ false
unfolding has_prefix
has_prefix-longer [] b q h = absurd cc
has_prefix-longer (x ∷ a) b [] h = refl
has_prefix-longer (x ∷ a) b (y ∷ q) h = ground (arith, has_prefix-longer a b q)

pub not_joined : (q name : Text) → IsOutside q → q ≢ join dir_name name
unfolding has_prefix join ℕ_discrete
not_joined q name h e = cc (ap (has_prefix (dir_name ++ b'/' ∷ [])) e, h)

pub outside-IsOther : (q : Text) → IsOutside q → IsOther dir_name q
outside-IsOther q h = record {
  not_ledger = not_joined q ledger_file h;
  not_bak = not_joined q bak_file h;
  not_tmp = not_joined q _ h;
}

stamped_files : (l : Ledger) → (stamped l).files ≡ l.files
unfolding stamped ensure_maps
stamped_files l = elim (Bool-cases (l.format == pos 0)) [ inl e ↦ rw e refl | inr e ↦ rw e refl ]

module _ (E : Env) (json : Json) (law : IsLawful E.remote) where
  -- The hub's ledger loads, and under it the path is in step.
  pub record Settled (p : Text) (r : Replicas E) : Type 0 where
    pub ledger : Ledger
    pub loaded : load E.remote json dir_name r.remote ≡ ok ledger
    pub in_step : InStep E p (record {
      local = r.local;
      remote = r.remote;
      files = ledger.files;
      tombs = ledger.tombstones;
      conflicts = [];
    })

  -- The hub after the writes of the ledger.
  record IsSaved (l : Ledger) (s t : E.remote.State) : Type 0 where
    loads : load E.remote json dir_name t ≡ ok (stamped l)
    same : (q : Text) → IsOutside q → E.remote.read t q ≡ E.remote.read s q

  gc_blobs-IsSaved :
      (now : Time) (l : Ledger) (s s1 : E.remote.State)
      → RoundTrips json (stamped l)
      → save E.remote json dir_name now l s ≡ (done, s1)
      → IsSaved l s (gc_blobs E.remote dir_name l s1).1
  unfolding join has_prefix ℕ_discrete
  gc_blobs-IsSaved now l s s1 back h = record {
    loads =
        load-same E.remote law json dir_name s1 (gc_blobs E.remote dir_name l s1).1
          (gc_blobs-elsewhere E.remote law dir_name l s1 (join dir_name ledger_file) refl)
          (gc_blobs-elsewhere E.remote law dir_name l s1 (join dir_name bak_file) refl)
        ∙ load-save E.remote json law dir_name l now back s h;
    same = λ q out.
        gc_blobs-elsewhere E.remote law dir_name l s1 q
          (has_prefix-longer (dir_name ++ b'/' ∷ []) (blobs_dir ++ b'/' ∷ []) q out)
        ∙ sym (ap (λ z. E.remote.read z.1 q) h)
        ∙ save-read E.remote law json dir_name now l s q (outside-IsOther q out);
  }

  InStep-Settled :
      (p : Text) (l : Ledger) (w : World E) (t : E.remote.State)
      → IsOutside p
      → InStep E p w
      → l.files ≡ w.files
      → IsSaved l w.remote t
      → Settled p (record { local = w.local; remote = t })
  InStep-Settled p l w t out (present c lr rr h) files s = record {
    ledger = stamped l;
    loaded = s.loads;
    in_step =
        present c lr (s.same p out ∙ rr)
          (ap (λ z. entry_hash (lookup p z)) (stamped_files l ∙ files) ∙ h);
  }
  InStep-Settled p l w t out (absent lr rr h) files s = record {
    ledger = stamped l;
    loaded = s.loads;
    in_step = absent lr (s.same p out ∙ rr) (ap (lookup p) (stamped_files l ∙ files) ∙ h);
  }

module _ (E : Env) (json : Json) (local_law : IsLawful E.local) (law : IsLawful E.remote)
    (decimal : ℕ → Text) (rfc3339 : Time → Text) (matches : Text → Bool) (opts : Options)
    (real : opts.dry_run ≡ false) where
  abbrev Outcome : Type 0
  Outcome = Done × Replicas E

  -- Conflicts make the run fail, so after a run that succeeds there are none and nothing more was written.
  conclude-done :
      (conflicts : List Text) (r r' : Replicas E)
      → conclude E json decimal rfc3339 matches opts conflicts r ≡ (done, r')
      → r ≡ r'
  unfolding conclude
  conclude-done [] r r' h = ap (λ z. z.1) h
  conclude-done (p ∷ ps) r r' h =
      let conflicts = if opts.dry_run then p ∷ ps else sort (p ∷ ps) in
      let report = write_conflicts_report E json decimal rfc3339 matches opts conflicts in
      let (_, _, _, failed) =
        resume-ok ((if opts.dry_run then pure tt else report) r)
          (λ _. fail (conflict_error decimal rfc3339 opts.job_name conflicts)) h in
      cc

  abbrev hub_writes : Ledger → World E → Action E.remote.State (Unit {0})
  hub_writes l w =
      save E.remote json dir_name opts.now (advanced E json decimal rfc3339 matches opts l w)
      >> ignore (gc_blobs E.remote dir_name (advanced E json decimal rfc3339 matches opts l w))

  concluded :
      (l : Ledger) (w : World E) (p : Text) (r' : Replicas E) (hub : Done × E.remote.State)
      → RoundTrips json (stamped (advanced E json decimal rfc3339 matches opts l w))
      → IsOutside p
      → InStep E p w
      → hub_writes l w w.remote ≡ hub
      → resume
          (hub.0, record { local = w.local; remote = hub.1 })
          (λ _. conclude E json decimal rfc3339 matches opts w.conflicts)
        ≡ (done, r')
      → Settled E json law p r'
  concluded l w p r' (err e, t) back out step e1 h = absurd cc
  concluded l w p r' (ok _, t) back out step e1 h =
      let full = advanced E json decimal rfc3339 matches opts l w in
      let (_, s1, saved, collected) =
        resume-ok (save E.remote json dir_name opts.now full w.remote)
          (λ _. ignore (gc_blobs E.remote dir_name full)) e1 in
      subst (Settled E json law p)
        (conclude-done w.conflicts (record { local = w.local; remote = t }) r' h)
        (InStep-Settled E json law p full w t out step refl (
          subst (IsSaved E json law full w.remote) (ap (λ z. z.1) collected)
            (gc_blobs-IsSaved E json law opts.now full w.remote s1 back saved)))

  finish-Settled :
      (l : Ledger) (w : World E) (p : Text) (r' : Replicas E)
      → RoundTrips json (stamped (advanced E json decimal rfc3339 matches opts l w))
      → IsOutside p
      → InStep E p w
      → finish E json decimal rfc3339 matches opts l w
          (record { local = w.local; remote = w.remote })
        ≡ (done, r')
      → Settled E json law p r'
  unfolding finish
  finish-Settled l w p r' back out step h =
      let first = on_hub E json decimal rfc3339 matches opts (hub_writes l w) in
      concluded l w p r' (hub_writes l w w.remote) back out step refl (
        subst
          (λ b.
            resume ((if b then pure tt else first) (record { local = w.local; remote = w.remote }))
              (λ _. conclude E json decimal rfc3339 matches opts w.conflicts)
            ≡ (done, r'))
          real h)

  after_loop-Settled :
      (l : Ledger) (w : World E) (p : Text) (r' : Replicas E) (out : Done × World E)
      → out ≡ (done, w)
      → RoundTrips json (stamped (advanced E json decimal rfc3339 matches opts l w))
      → IsOutside p
      → InStep E p w
      → after_loop E json decimal rfc3339 matches opts l out ≡ (done, r')
      → Settled E json law p r'
  after_loop-Settled l w p r' out e back outside step h =
      finish-Settled l w p r' back outside step
        (sym (ap (after_loop E json decimal rfc3339 matches opts l) e) ∙ h)

  -- A run that succeeds was not refused.
  allowed :
      (free refused : Bool) (x : Outcome) (r r' : Replicas E) (e : Error)
      → (if free then x else if refused then (err e, r) else x) ≡ (done, r')
      → x ≡ (done, r')
  allowed true refused x r r' e h = h
  allowed false true x r r' e h = absurd cc
  allowed false false x r r' e h = h

  -- What the loop of a run is given.
  abbrev pub paths_of : Ledger → Snapshot → Snapshot → List Text
  paths_of l ls rs = union_paths l.files l.tombstones ls.files rs.files

  abbrev pub start : Ledger → Replicas E → World E
  start l r = record {
    local = r.local;
    remote = r.remote;
    files = l.files;
    tombs = l.tombstones;
    conflicts = [];
  }

  -- When a run that is no dry run, on lawful replicas, over separate paths of which the scans were true,
  -- succeeds, its loop included, every path of it outside the ledger's directory is settled: the ledger
  -- that the next run loads from the hub has the hash of the content that both replicas have, or no entry
  -- for a path that both lack, where the JSON of the ledger reads back.
  pub run_paths-Settled :
      (l : Ledger) (ls rs : Snapshot) (r r' : Replicas E) (w : World E)
      → Separate E (setup E json decimal rfc3339 matches opts l ls rs) (paths_of l ls rs)
      → ((q : Text)
          → member q (paths_of l ls rs) ≡ true
          → Ready E (setup E json decimal rfc3339 matches opts l ls rs) q (start l r))
      → reconcile E
          (setup E json decimal rfc3339 matches opts l ls rs)
          (paths_of l ls rs)
          (start l r)
        ≡ (done, w)
      → RoundTrips json (stamped (advanced E json decimal rfc3339 matches opts l w))
      → run_paths E json decimal rfc3339 matches opts l ls rs r ≡ (done, r')
      → (q : Text) → member q (paths_of l ls rs) ≡ true
      → IsOutside q
      → Settled E json law q r'
  unfolding run_paths
  run_paths-Settled l ls rs r r' w separate ready loop back h q listed out =
      let run = setup E json decimal rfc3339 matches opts l ls rs in
      let step =
        reconcile-InStep E run local_law law real (paths_of l ls rs) (start l r) w separate ready
          loop q listed in
      let looped = reconcile E run (paths_of l ls rs) (start l r) in
      after_loop-Settled l w q r' looped loop back out step (
        allowed opts.allow_mass_delete _ (after_loop E json decimal rfc3339 matches opts l looped) r
          r' _ h)
