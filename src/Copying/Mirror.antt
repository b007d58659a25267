-- ===== src/Copying/Mirror.antt =====
-- internal/runner/runner.go: what a copy or sync job leaves at the destination.
use yggsync.Prelude.{
  ℕ, ◌≡◌, ◌≢◌, refl, ap, sym, ◌∙◌, Bool, true, false, ◌||◌, List, [], ◌∷◌, Text, Option, none, some,
}
use yggsync.Prelude.{
  ◌==◌, text_eq, if◌then◌else◌, eq_of_==, arith, Bool-cases, Option-cases, inl, inr,
}
use yggsync.Prelude.Dict.{Dict, lookup, keys}
use yggsync.Prelude.Sorting.{sort, member, member-sort, member-keys, missing-keys}
use yggsync.Prelude.Results.{
  Error, fail, ◌>>◌, Result, Result-cases, ok, err, not_exist, done, Action, resume-ok, pure,
  branch, for_each,
}
use yggsync.Backend.{Fs, IsLawful}
use yggsync.Worktree.State.{FileState, Snapshot, state_of}
use yggsync.Copying.{
  create_dirs, unchanged, copy_file, copy_changed, copy_missing_or_changed, extra,
  delete_missing_remote, mirror, dir_mode,
}

part_fails :
    (D : Fs) (rel part : Text) (m : ℕ) (e : Error) (d d' : D.State)
    → (D.write_part rel part m e >> fail e) d ≢ (done, d')
part_fails D rel part m e d d' h =
    let (_, t, _, h1) = resume-ok (D.write_part rel part m e d) (λ _. fail e) h in cc h1

copy_file-ok :
    (S D : Fs) (s : S.State) (rel : Text) (st : FileState) (d d' : D.State)
    → copy_file S D s rel st d ≡ (done, d')
    → (c : Text) × (S.read s rel ≡ ok c) × (D.write_file rel c st.mode st.mod_time d ≡ (done, d'))
unfolding copy_file
copy_file-ok S D s rel st d d' h = elim (Result-cases (S.read s rel)) [
  | inl (c, e) ↦ (c, e, rw (e) at h)
  | inr (f, e) ↦ elim (Option-cases (S.delivered s rel)) [
    | inl n ↦ absurd (cc (rw (e, n) at h))
    | inr (part, n) ↦ absurd (part_fails D rel part st.mode f d d' (rw (e, n) at h))
  ]
]

-- A step at a path replaces what is read there, and a second such step changes nothing more.
record Step (R : Fs) (f : Text → Action R.State (Unit {0}))
    (goal : Text → Result Text → Result Text) : Type 0 where
  reads :
      (p : Text) (r r' : R.State)
      → f p r ≡ (done, r')
      → (q : Text) → R.read r' q ≡ (if q == p then goal q (R.read r q) else R.read r q)
  again : (p : Text) (x : Result Text) → goal p (goal p x) ≡ goal p x

for_each-read :
    (R : Fs) (f : Text → Action R.State (Unit {0})) (goal : Text → Result Text → Result Text)
    → Step R f goal
    → (ps : List Text) (r r' : R.State) → for_each f ps r ≡ (done, r')
    → (q : Text) → R.read r' q ≡ (if member q ps then goal q (R.read r q) else R.read r q)
unfolding for_each member
for_each-read R f goal step [] r r' h q = ap (λ z. R.read z.1 q) (sym h)
for_each-read R f goal step (p ∷ ps) r r' h q =
    let (_, r1, h1, h2) = resume-ok (f p r) (λ _. for_each f ps) h in
    let first = step.reads p r r1 h1 q in
    let rest = for_each-read R f goal step ps r1 r' h2 q in
    let twice = step.again q (R.read r q) in
    elim (Bool-cases (q == p)) [
      | inl t ↦ elim (Bool-cases (member q ps)) [
        | inl m ↦ rw (t, rest, m, first, t, twice)
        | inr m ↦ rw (t, rest, m, first, t)
      ]
      | inr t ↦ rw (t, rest, first, t)
    ]

extra-keeps :
    (p : Text) (d local_files : Dict Text FileState) {st : FileState}
    → lookup p local_files ≡ some st
    → member p (extra d local_files) ≡ false
unfolding extra member
extra-keeps p [] l h = refl
extra-keeps p ((q, _) ∷ d) l {st = st} h =
    let rest = extra-keeps p d l h in
    elim (Bool-cases (p == q)) [
      | inl t ↦ rw (extra, ap (λ z. lookup z l) (sym (eq_of_== p q t)) ∙ h) rest
      | inr t ↦
          elim (lookup q l)
            as (λ o. member p (elim o [ none ↦ q ∷ extra d l | some _ ↦ extra d l ]) ≡ false) [
              | none ↦ rw (t) rest
              | some _ ↦ rest
            ]
    ]

extra-missing :
    (p : Text) (d local_files : Dict Text FileState)
    → lookup p local_files ≡ none
    → member p (extra d local_files) ≡ member p (keys d)
unfolding extra member keys
extra-missing p [] l h = refl
extra-missing p ((q, _) ∷ d) l h =
    let rest = extra-missing p d l h in
    elim (Bool-cases (p == q)) [
      | inl t ↦ rw (t, extra, ap (λ z. lookup z l) (sym (eq_of_== p q t)) ∙ h, t)
      | inr t ↦
          elim (lookup q l)
            as (λ o.
              member p (elim o [ none ↦ q ∷ extra d l | some _ ↦ extra d l ])
              ≡ ((p == q) || member p (keys d))) [ none ↦ rw (t) rest | some _ ↦ rw (t) rest ]
    ]

module _ (L R : Fs) (law : IsLawful R) (l : L.State) (local_snap remote_snap : Snapshot) where
  copied : Text → Result Text → Result Text
  copied p x =
      if unchanged L R l (state_of (lookup p local_snap.files)) (lookup p remote_snap.files)
      then x
      else L.read l p

  copy_changed-reads :
      (p : Text) (r r' : R.State)
      → copy_changed L R l local_snap remote_snap false p r ≡ (done, r')
      → (q : Text) → R.read r' q ≡ (if q == p then copied q (R.read r q) else R.read r q)
  unfolding copy_changed copied
  copy_changed-reads p r r' h q =
      elim (branch
        (unchanged L R l (state_of (lookup p local_snap.files)) (lookup p remote_snap.files)) _ _ r
        h) [
          | inl (same, h1) ↦ elim (Bool-cases (q == p)) [
            | inl t ↦ rw (t, eq_of_== q p t, same) (ap (λ z. R.read z.1 p) (sym h1))
            | inr t ↦ rw (t) (ap (λ z. R.read z.1 q) (sym h1))
          ]
          | inr (differs, h1) ↦
              let (c, e, h2) =
                copy_file-ok L R l p (state_of (lookup p local_snap.files)) r r' h1 in
              law.read-write_file p c _ _ r r' h2 q ∙ elim (Bool-cases (q == p)) [
                | inl t ↦ rw (t, eq_of_== q p t, differs) (sym e)
                | inr t ↦ rw (t)
              ]
        ]

  copy_changed-Step : Step R (copy_changed L R l local_snap remote_snap false) copied
  unfolding copied
  copy_changed-Step = record { reads = copy_changed-reads; again = λ p x. ground arith }

  create_dirs-read :
      (r r' : R.State)
      → create_dirs R local_snap false r ≡ (done, r')
      → (q : Text) → R.read r' q ≡ R.read r q
  unfolding create_dirs
  create_dirs-read r r' h q =
      let kept =
        for_each-read R (λ dir. R.mkdir_all dir (dir_mode (lookup dir local_snap.dirs))) (λ p x. x)
          (record {
            reads = λ p s s' e z.
                ground (arith, ap (λ y. R.read y.1 z) (sym e) ∙ law.read-mkdir_all p _ s z);
            again = λ p x. refl;
          })
          (sort (keys local_snap.dirs)) r r' h q in
      kept
      ∙ (elim (member q (sort (keys local_snap.dirs)))
          as (λ b. (if b then R.read r q else R.read r q) ≡ R.read r q) [
            | true ↦ refl
            | false ↦ refl
          ])

  delete_missing_remote-read :
      (is_sync : Bool) (r r' : R.State)
      → (if is_sync then delete_missing_remote R local_snap remote_snap false else pure tt) r
        ≡ (done, r')
      → (q : Text)
      → R.read r' q ≡ (
          if member q (extra remote_snap.files local_snap.files)
          then if is_sync then err not_exist else R.read r q
          else R.read r q)
  unfolding delete_missing_remote
  delete_missing_remote-read true r r' h q =
      for_each-read R _ (λ _ _. err not_exist)
        (record { reads = law.read-remove; again = λ p x. refl })
        (sort (extra remote_snap.files local_snap.files)) r r' h q
      ∙ rw (member-sort q (extra remote_snap.files local_snap.files))
  delete_missing_remote-read false r r' h q =
      sym (ap (λ z. R.read z.1 q) h)
      ∙ (elim (member q (extra remote_snap.files local_snap.files))
          as (λ b. R.read r q ≡ (if b then R.read r q else R.read r q)) [
            | true ↦ refl
            | false ↦ refl
          ])

  -- What the run leaves at a path: of a local file its content, unless `sameFile` took the destination's
  -- file for it; of other files nothing in a sync job, and what was there in a copy job.
  abbrev pub left : Bool → Result Text → Text → Option FileState → Option FileState → Result Text
  left is_sync before p (some st) dst = if unchanged L R l st dst then before else L.read l p
  left is_sync before p none (some _) = if is_sync then err not_exist else before
  left is_sync before p none none = before

  -- After a run that succeeds, and is not a dry run, every path of the destination reads as `left` says: as
  -- the source's file, or as before where `sameFile` took the destination's file for it; and a path that only
  -- the destination had is gone in a sync job, and kept in a copy job.
  pub mirror-read :
      (is_sync : Bool) (r r' : R.State)
      → mirror L R l is_sync local_snap remote_snap false r ≡ (done, r')
      → (q : Text)
      → R.read r' q
        ≡ left is_sync (R.read r q) q (lookup q local_snap.files) (lookup q remote_snap.files)
  unfolding mirror copy_missing_or_changed copied
  mirror-read is_sync r r' h q =
      let (_, r1, h1, h2) = resume-ok (create_dirs R local_snap false r) _ h in
      let (_, r2, h3, h4) =
        resume-ok (copy_missing_or_changed L R l local_snap remote_snap false r1) _ h2 in
      let made = create_dirs-read r r1 h1 q in
      let copies =
        for_each-read R _ copied copy_changed-Step (sort (keys local_snap.files)) r1 r2 h3 q in
      let after = delete_missing_remote-read is_sync r2 r' h4 q in
      let listed = member-sort q (keys local_snap.files) in
      elim (Option-cases (lookup q local_snap.files)) [
        | inr (st, e) ↦
            let kept = extra-keeps q remote_snap.files local_snap.files {st = st} e in
            let there = listed ∙ member-keys q local_snap.files {v = st} e in
            rw (after, kept, copies, there, e, made)
        | inl e ↦
            let extras = extra-missing q remote_snap.files local_snap.files e in
            let absent = listed ∙ missing-keys q local_snap.files e in
            elim (Option-cases (lookup q remote_snap.files)) [
              | inr (d, f) ↦ rw (
                after,
                extras,
                member-keys q remote_snap.files {v = d} f,
                copies,
                absent,
                e,
                f,
                made,
              )
              | inl f ↦
                  rw (after, extras, missing-keys q remote_snap.files f, copies, absent, e, f, made)
            ]
      ]
