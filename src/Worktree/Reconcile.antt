-- ===== src/Worktree/Reconcile.antt =====
-- internal/runner/worktree.go: the loop of `runWorktree` over the paths, and what a run leaves there.
use yggsync.Prelude.{◌≡◌, ◌≢◌, refl, ap, subst, sym, ◌∙◌, true, false, List, [], ◌∷◌, Text}
use yggsync.Prelude.{◌==◌, text_eq, ==_of_eq, eq_of_==, arith, Bool-cases, inl, inr}
use yggsync.Prelude.Dict.{lookup}
use yggsync.Prelude.Sorting.{member}
use yggsync.Prelude.Results.{done, Action, resume-ok, for_each}
use yggsync.Backend.{IsLawful}
use yggsync.Worktree.State.{Env, Setup, World, entry_hash}
use yggsync.Worktree.Operations.Effects.{IsVaultPath}
use yggsync.Worktree.Decide.{sidecar, decide}
use yggsync.Worktree.Decide.Readiness.{InStep, present, absent, Scanned, Ready}
use yggsync.Worktree.Decide.InStep.{decide-InStep}
use yggsync.Worktree.Decide.Frame.{Untouched, Untouched-trans, decide-Untouched}

unfoldable pub reconcile : (E : Env) → Setup → List Text → Action (World E) (Unit {0})
unfolding for_each decide
reconcile E run = for_each (decide E run)

-- No path is there twice, and none is the sidecar of another.
pub data Separate (E : Env) (run : Setup) : List Text → Type 0 where
  end : Separate E run []
  apart :
      {p : Text} {ps : List Text}
      → ((q : Text) → member q ps ≡ true → (q ≢ p) × (q ≢ sidecar E run p) × (p ≢ sidecar E run q))
      → Separate E run ps
      → Separate E run (p ∷ ps)

Untouched-InStep :
    (E : Env) (p : Text) (w w' : World E) → Untouched E p w w' → InStep E p w → InStep E p w'
Untouched-InStep E p w w' u (present c l r h) =
    present c (u.local_read ∙ l) (u.remote_read ∙ r) (ap entry_hash u.entry ∙ h)
Untouched-InStep E p w w' u (absent l r h) =
    absent (u.local_read ∙ l) (u.remote_read ∙ r) (u.entry ∙ h)

Untouched-Ready :
    (E : Env) (run : Setup) (p : Text) (w w' : World E)
    → Untouched E p w w'
    → Ready E run p w
    → Ready E run p w'
Untouched-Ready E run p w w' u r = record {
  vault = r.vault;
  local_scanned =
      subst (λ z. Scanned E.sha256_hex z (lookup p run.local_snap.files)) (sym u.local_read)
        r.local_scanned;
  remote_scanned =
      subst (λ z. Scanned E.sha256_hex z (lookup p run.remote_snap.files)) (sym u.remote_read)
        r.remote_scanned;
  no_collision = λ c d l m. r.no_collision c d (sym u.local_read ∙ l) (sym u.remote_read ∙ m);
  hashes = r.hashes;
  entries = λ e f. r.entries e (sym u.entry ∙ f);
}

module _ (E : Env) (run : Setup) (local_law : IsLawful E.local) (remote_law : IsLawful E.remote)
    (real : run.dry_run ≡ false) where
  reconcile-Untouched :
      (ps : List Text) (q : Text) (w w' : World E)
      → IsVaultPath q
      → ((p : Text) → member p ps ≡ true → (q ≢ p) × (q ≢ sidecar E run p))
      → reconcile E run ps w ≡ (done, w')
      → Untouched E q w w'
  unfolding reconcile for_each member
  reconcile-Untouched [] q w w' v away h =
      subst (λ z. Untouched E q w z) (ap (λ z. z.1) h)
        (record { local_read = refl; remote_read = refl; entry = refl; tombstone = refl })
  reconcile-Untouched (p ∷ ps) q w w' v away h =
      let (_, w1, h1, h2) = resume-ok (decide E run p w) (λ _. reconcile E run ps) h in
      let (ne, side) = away p (ground (arith, ==_of_eq p p refl)) in
      Untouched-trans E q w w1 w'
        (decide-Untouched E run local_law remote_law real p q v ne w w1 side h1)
        (reconcile-Untouched ps q w1 w' v (λ x m. away x (ground arith)) h2)

  -- When the loop over separate paths, of which the scans were true, succeeds in a run that is no dry
  -- run, every path is in step: both replicas have the same content and the ledger its hash, or the
  -- path is gone from all three.
  pub reconcile-InStep :
      (ps : List Text) (w w' : World E)
      → Separate E run ps
      → ((q : Text) → member q ps ≡ true → Ready E run q w)
      → reconcile E run ps w ≡ (done, w')
      → (q : Text) → member q ps ≡ true
      → InStep E q w'
  unfolding reconcile for_each member
  reconcile-InStep [] w w' sep ready h q m = cc
  reconcile-InStep (p ∷ ps) w w' (apart away sep) ready h q m =
      let (_, w1, h1, h2) = resume-ok (decide E run p w) (λ _. reconcile E run ps) h in
      let ready_p = ready p (ground (arith, ==_of_eq p p refl)) in
      let kept =
        reconcile-Untouched ps p w1 w' ready_p.vault
          (λ x l. (λ e. (away x l).0 (sym e), (away x l).2)) h2 in
      let later : (x : Text) → member x ps ≡ true → Ready E run x w1 = λ x l.
        let ready_x = ready x (ground arith) in
        Untouched-Ready E run x w w1
          (decide-Untouched E run local_law remote_law real p x ready_x.vault (away x l).0 w w1
            (away x l).1 h1)
          ready_x in
      elim (Bool-cases (q == p)) [
        | inl t ↦
            subst (λ z. InStep E z w') (sym (eq_of_== q p t))
              (Untouched-InStep E p w1 w' kept
                (decide-InStep E run local_law remote_law real p w w1 ready_p h1))
        | inr t ↦ reconcile-InStep ps w1 w' sep later h2 q (ground arith)
      ]
