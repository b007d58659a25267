-- ===== src/Worktree/Decide/Rest.antt =====
-- internal/runner/worktree.go, `decide`: at a path in step there is nothing to do.
use yggsync.Prelude.{
  ◌≡◌, ◌≢◌, refl, ap, sym, ◌∙◌, Bool, true, false, [], Text, Option, none, some, ◌==◌, text_eq,
  ==_of_eq, ==_of_ne, if◌then◌else◌,
}
use yggsync.Prelude.Dict.{lookup}
use yggsync.Prelude.Results.{Result, ok, err, not_exist, done, Action, if_some}
use yggsync.Ledger.{FileEntry, Tombstone}
use yggsync.Worktree.State.{FileState, Env, Setup, World, hash_of, entry_hash}
use yggsync.Worktree.Decide.{decide_converged, settle, guard_deletion, decide}
use yggsync.Worktree.Decide.Readiness.{InStep, present, absent, Scanned, missing, found}

Scanned-hash :
    (sha : Text → Text) (r : Result Text) (st : Option FileState) (c : Text)
    → Scanned sha r st
    → r ≡ ok c
    → hash_of st ≡ sha c
unfolding hash_of
Scanned-hash sha r _ c (missing e) h = absurd (cc (sym e ∙ h))
Scanned-hash sha r _ c (found d st e same) h = let eq : d ≡ c = cc (sym e ∙ h) in same ∙ ap sha eq

Scanned-none :
    (sha : Text → Text) (r : Result Text) (st : Option FileState)
    → Scanned sha r st
    → r ≡ err not_exist
    → hash_of st ≡ []
unfolding hash_of
Scanned-none sha r _ (missing e) h = refl
Scanned-none sha r _ (found d st e same) h = absurd (cc (sym e ∙ h))

if_some-both :
    {S A X : Type 0} (o : Option X) (f : X → Action S A) (y : Action S A) (s : S) {r : Result A × S}
    → ((x : X) → f x s ≡ r)
    → y s ≡ r
    → if_some o f y s ≡ r
if_some-both none f y s h k = k
if_some-both (some x) f y s h k = h x

else_branch :
    {S A : Type 0} (b : Bool) (x y : Action S A) (s : S) {r : Result A × S}
    → b ≡ false
    → y s ≡ r
    → (if b then x else y) s ≡ r
else_branch true x y s h k = absurd cc
else_branch false x y s h k = k

-- What a path in step rests on: its snapshots are true, and no hash is empty.
pub record IsScanned (E : Env) (run : Setup) (p : Text) (w : World E) : Type 0 where
  pub local : Scanned E.sha256_hex (E.local.read w.local p) (lookup p run.local_snap.files)
  pub remote : Scanned E.sha256_hex (E.remote.read w.remote p) (lookup p run.remote_snap.files)
  pub hashes : (c : Text) → E.sha256_hex c ≢ []

module _ (E : Env) (run : Setup) where
  converged :
      (p : Text) (la lb : Option FileState) (le : Option FileEntry) (w : World E) (h : Text)
      → h ≢ []
      → hash_of la ≡ h
      → hash_of lb ≡ h
      → entry_hash le ≡ h
      → settle E run p la lb le w ≡ (done, w)
  unfolding settle decide_converged
  converged p la lb le w h full a b l = rw (a, b, l, ==_of_eq h h refl, ==_of_ne h [] full) refl

  nowhere :
      (p : Text) (la lb : Option FileState) (w : World E)
      → hash_of la ≡ []
      → hash_of lb ≡ []
      → settle E run p la lb none w ≡ (done, w)
  unfolding settle decide_converged
  nowhere p la lb w a b = rw (a, b) refl

  nowhere_guarded :
      (p : Text) (la lb : Option FileState) (tomb : Tombstone) (w : World E)
      → hash_of la ≡ []
      → hash_of lb ≡ []
      → guard_deletion E run p la lb none tomb w ≡ (done, w)
  unfolding guard_deletion
  nowhere_guarded p la lb tomb w a b = rw (a, b) refl

  pub decide-rests :
      (p : Text) (w : World E) → IsScanned E run p w → InStep E p w → decide E run p w ≡ (done, w)
  unfolding decide entry_hash
  decide-rests p w scanned (present c l r e) =
      let full = scanned.hashes c in
      let quiet =
        converged p (lookup p run.local_snap.files) (lookup p run.remote_snap.files)
          (lookup p w.files) w (E.sha256_hex c) full
          (Scanned-hash E.sha256_hex _ _ c scanned.local l)
          (Scanned-hash E.sha256_hex _ _ c scanned.remote r) e in
      if_some-both (lookup p w.tombs) _ _ w
        (λ tomb.
          else_branch (entry_hash (lookup p w.files) == []) _ _ w
            (ap (λ h. h == []) e ∙ ==_of_ne (E.sha256_hex c) [] full) quiet)
        quiet
  decide-rests p w scanned (absent l r e) =
      let a = Scanned-none E.sha256_hex _ _ scanned.local l in
      let b = Scanned-none E.sha256_hex _ _ scanned.remote r in
      if_some-both (lookup p w.tombs) _ _ w
        (λ tomb. rw e (
          nowhere_guarded p (lookup p run.local_snap.files) (lookup p run.remote_snap.files) tomb w
            a b))
        (rw e (nowhere p (lookup p run.local_snap.files) (lookup p run.remote_snap.files) w a b))

  pub same_hashes :
      (p : Text) (w : World E)
      → IsScanned E run p w
      → InStep E p w
      → hash_of (lookup p run.local_snap.files) ≡ hash_of (lookup p run.remote_snap.files)
  same_hashes p w scanned (present c l r e) =
      Scanned-hash E.sha256_hex _ _ c scanned.local l
      ∙ sym (Scanned-hash E.sha256_hex _ _ c scanned.remote r)
  same_hashes p w scanned (absent l r e) =
      Scanned-none E.sha256_hex _ _ scanned.local l
      ∙ sym (Scanned-none E.sha256_hex _ _ scanned.remote r)
