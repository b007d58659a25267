-- ===== src/Worktree/Run/Paths.antt =====
-- internal/runner/worktree.go, `unionPaths`: a run decides every path that it knows of.
use yggsync.Prelude.{
  ◌≡◌, refl, sym, ◌∙◌, Bool, false, ◌||◌, List, [], ◌∷◌, ◌++◌, Text, ◌==◌, text_eq, ==_of_eq,
  ==_of_ne, eq_of_==, arith, Bool-cases, inl, inr,
}
use yggsync.Prelude.Dict.{Dict, keys}
use yggsync.Prelude.Sorting.{
  sort, insert_sorted, leb_text, member, member-sort, member-insert_sorted, member-append,
}
use yggsync.Ledger.{FileEntry, Tombstone}
use yggsync.Worktree.State.{FileState}
use yggsync.Worktree.Run.{distinct, union_paths}

neither : (x y : Bool) → (x || y) ≡ false → (x ≡ false) × (y ≡ false)
neither x y h = ground arith

member-distinct : (p : Text) (ps : List Text) → member p (distinct ps) ≡ member p ps
unfolding distinct member
member-distinct p [] = refl
member-distinct p (q ∷ ps) = elim (Bool-cases (p == q)) [
  | inl e ↦ ground (arith, eq_of_== p q e, member-distinct q ps, member-distinct p ps)
  | inr e ↦ ground (arith, member-distinct p ps)
]

-- Every path of the list stands there once.
pub data NoRepeats : List Text → Type 0 where
  finished : NoRepeats []
  once : {p : Text} {ps : List Text} → member p ps ≡ false → NoRepeats ps → NoRepeats (p ∷ ps)

distinct-NoRepeats : (ps : List Text) → NoRepeats (distinct ps)
unfolding distinct
distinct-NoRepeats [] = finished
distinct-NoRepeats (p ∷ ps) = elim (Bool-cases (member p (distinct ps))) [
  | inl e ↦ rw e (distinct-NoRepeats ps)
  | inr e ↦ rw e (once e (distinct-NoRepeats ps))
]

insert_sorted-NoRepeats :
    (p : Text) (qs : List Text)
    → member p qs ≡ false
    → NoRepeats qs
    → NoRepeats (insert_sorted p qs)
unfolding insert_sorted member
insert_sorted-NoRepeats p [] new h = once refl finished
insert_sorted-NoRepeats p (q ∷ qs) new (once fresh h) = elim (Bool-cases (leb_text p q)) [
  | inl e ↦ rw e (once new (once fresh h))
  | inr e ↦
      let (apart, unseen) = neither (p == q) (member p qs) new in
      rw e (
        once
          (member-insert_sorted q p qs
            ∙ rw (==_of_ne q p (λ z. cc (apart, ==_of_eq p q (sym z)))) fresh)
          (insert_sorted-NoRepeats p qs unseen h))
]

sort-NoRepeats : (ps : List Text) → NoRepeats ps → NoRepeats (sort ps)
unfolding sort
sort-NoRepeats [] h = finished
sort-NoRepeats (p ∷ ps) (once fresh h) =
    insert_sorted-NoRepeats p (sort ps) (member-sort p ps ∙ fresh) (sort-NoRepeats ps h)

-- The paths of a run are those of the ledger's files and tombstones and of the two scans, each once.
pub union_paths-NoRepeats :
    (files : Dict Text FileEntry) (tombs : Dict Text Tombstone)
    (local_files remote_files : Dict Text FileState)
    → NoRepeats (union_paths files tombs local_files remote_files)
      × ((p : Text)
          → member p (union_paths files tombs local_files remote_files) ≡ (
              member p (keys files)
              || (member p (keys tombs)
                  || (member p (keys local_files) || member p (keys remote_files)))))
unfolding union_paths
union_paths-NoRepeats files tombs local_files remote_files =
    let all = keys files ++ (keys tombs ++ (keys local_files ++ keys remote_files)) in
    (
      sort-NoRepeats (distinct all) (distinct-NoRepeats all),
      λ p.
          member-sort p (distinct all)
          ∙ member-distinct p all
          ∙ member-append p (keys files) (keys tombs ++ (keys local_files ++ keys remote_files))
          ∙ rw (
            member-append p (keys tombs) (keys local_files ++ keys remote_files),
            member-append p (keys local_files) (keys remote_files),
          ),
    )
