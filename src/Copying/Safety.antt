-- ===== src/Copying/Safety.antt =====
-- internal/runner/runner.go, `safeDeleteIfRemoteExists`: which local files it removes.
use yggsync.Prelude.{◌≡◌, refl, ap, subst, sym, ◌∙◌, Bool, true, false, List, [], ◌∷◌, Text, some}
use yggsync.Prelude.{
  ◌==◌, text_eq, ==_of_eq, eq_of_==, arith, Bool-cases, Option-cases, ◌⊎◌, inl, inr, leb, ◌≤◌, ◌+◌,
  ◌-◌, nat_eq,
}
use yggsync.Prelude.Dict.{lookup}
use yggsync.Prelude.Sorting.{member}
use yggsync.Prelude.Results.{ok, resume-keeps, Result-cases}
use yggsync.Backend.{Time, Fs, Entry, IsLawful}
use yggsync.Worktree.State.{FileState, Snapshot}
use yggsync.Copying.{
  least_duration, same_time, same_file, stat_state, stat_file, delete_confirmed, remove_unseen,
  safe_delete,
}

-- Times within two seconds of each other; or, as `sameTime` has it, the second so much later, some 292
-- years, that their difference is no `time.Duration`.
abbrev pub IsNear : Time → Time → Type 0
IsNear a b = ((a ≤ b + 2000000000) × (b ≤ a + 2000000000)) ⊎ (a + least_duration ≤ b)

same_time-IsNear : (a b : Time) → same_time a b ≡ true → IsNear a b
unfolding same_time
same_time-IsNear a b h = elim (Bool-cases (leb b a)) [
  | inl before ↦ inl (ground arith, ground arith)
  | inr after ↦ elim (Bool-cases (leb least_duration (b - a))) [
    | inl far ↦ inr (ground arith)
    | inr close ↦ inl (ground arith, ground arith)
  ]
]

same_file-IsNear :
    (a b : FileState) → same_file a b ≡ true → (a.size ≡ b.size) × IsNear a.mod_time b.mod_time
unfolding same_file
same_file-IsNear a b h = elim (Bool-cases (a.size == b.size)) [
  | inr differ ↦ ground arith
  | inl equal ↦ elim (Bool-cases (same_time a.mod_time b.mod_time)) [
    | inl near ↦ (ground arith, same_time-IsNear a.mod_time b.mod_time near)
    | inr far ↦ ground arith
  ]
]

module _ (L R : Fs) (law : IsLawful L) (r : R.State) (local_snap : Snapshot) (dry_run : Bool) where
  -- The destination has a file of the same size, of a time near that of the scan, and this is not a dry run.
  pub record Confirmed (q : Text) : Type 0 where
    pub state : FileState
    pub entry : Entry
    pub scanned : lookup q local_snap.files ≡ some state
    pub present : R.stat r q ≡ ok entry
    pub same_size : state.size ≡ entry.size
    pub near : IsNear state.mod_time entry.mod_time
    pub real : dry_run ≡ false

  -- The path reads as before, or its removal was confirmed.
  abbrev Safe : L.State → List Text → Text → L.State → Type 0
  Safe l all q s = (L.read s q ≡ L.read l q) ⊎ ((member q all ≡ true) × Confirmed q)

  delete_confirmed-reads :
      (p q : Text) (s : L.State)
      → (L.read (delete_confirmed L R r local_snap dry_run p (lookup p local_snap.files) s).1 q
          ≡ L.read s q)
        ⊎ ((q ≡ p) × Confirmed p)
  unfolding delete_confirmed stat_file
  delete_confirmed-reads p q s = elim (Option-cases (lookup p local_snap.files)) [
    | inl e ↦ inl (rw (e, delete_confirmed))
    | inr (st, e) ↦ elim (Result-cases (R.stat r p)) [
      | inr (_, f) ↦ inl (rw (e, delete_confirmed, f))
      | inl (entry, f) ↦ elim (Bool-cases (same_file st (stat_state entry))) [
        | inr t ↦ inl (rw (e, delete_confirmed, f, t))
        | inl t ↦ elim (Bool-cases dry_run) [
          | inl dry ↦ inl (rw (e, delete_confirmed, f, t, dry))
          | inr real ↦ elim (Bool-cases (q == p)) [
            | inl at ↦ inr (
              eq_of_== q p at,
              let (size, near) = same_file-IsNear st (stat_state entry) t in
                  record {
                    state = st;
                    entry = entry;
                    scanned = e;
                    present = f;
                    same_size = size;
                    near = near;
                    real = real;
                  },
            )
            | inr away ↦ inl (
                rw (e, delete_confirmed, f, t, real)
                  (law.remove_frame p s q (λ e. cc (away, ==_of_eq q p e))))
          ]
        ]
      ]
    ]
  ]

  remove_unseen-Safe :
      (l : L.State) (all seen : List Text) (p q : Text) (s : L.State)
      → member p all ≡ true
      → Safe l all q s
      → Safe l all q (remove_unseen L R r local_snap dry_run seen p s).1
  remove_unseen-Safe l all seen p q s listed h = elim (Bool-cases (member p seen)) [
    | inl t ↦ rw (t) h
    | inr t ↦ rw (t) (elim (delete_confirmed-reads p q s) [
      | inl same ↦ elim h [ inl before ↦ inl (same ∙ before) | inr c ↦ inr c ]
      | inr (at, c) ↦ inr (ap (λ z. member z all) at ∙ listed, subst (λ z. Confirmed z) (sym at) c)
    ])
  ]

  safe_delete-Safe_from :
      (l : L.State) (all seen ps : List Text) (q : Text)
      → ((x : Text) → member x ps ≡ true → member x all ≡ true)
      → (s : L.State) → Safe l all q s
      → Safe l all q (safe_delete L R r local_snap dry_run seen ps s).1
  unfolding safe_delete member
  safe_delete-Safe_from l all seen [] q sub s h = h
  safe_delete-Safe_from l all seen (p ∷ ps) q sub s h =
      resume-keeps (Safe l all q) (remove_unseen L R r local_snap dry_run seen p s) _
        (remove_unseen-Safe l all seen p q s (sub p (ground (arith, ==_of_eq p p refl))) h)
        (λ _ s2 h2. safe_delete-Safe_from l all (p ∷ seen) ps q (λ x m. sub x (ground arith)) s2 h2)

  -- Whatever the run returns, a path of which a later read differs was listed, and the destination
  -- has a file of the same size and of a time near its own.
  pub safe_delete-Safe :
      (l : L.State) (ps : List Text) (q : Text)
      → Safe l ps q (safe_delete L R r local_snap dry_run [] ps l).1
  safe_delete-Safe l ps q = safe_delete-Safe_from l ps [] ps q (λ x m. m) l (inl refl)
