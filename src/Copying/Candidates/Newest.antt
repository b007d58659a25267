-- ===== src/Copying/Candidates/Newest.antt =====
-- internal/runner/runner.go, `keepLatestCandidates`: the newest files of a rule are kept.
use yggsync.Prelude.{
  ℕ, zero, suc, ◌+◌, ◌≤◌, ◌≡◌, refl, ap, sym, ◌∙◌, Bool, true, false, ◌||◌, List, [], ◌∷◌, Text,
  arith, Bool-cases, inl, inr, ltb,
}
use yggsync.Prelude.{
  ◌≢◌, ◌==◌, text_eq, take, drop, length, take-append-drop, length-append, eq_of_==,
}
use yggsync.Prelude.Int.{pos, pos_part, ltb_ℤ}
use yggsync.Prelude.Dict.{keys}
use yggsync.Prelude.Sorting.{member, member-append}
use yggsync.Backend.{Time}
use yggsync.Config.{KeepLatestRule}
use yggsync.Worktree.State.{Snapshot}
use yggsync.Copying.Candidates.{matching, time_of, insert_newest, by_time, rule_candidates}

-- The candidates are what is left of the matching files without the newest `keep`.
pub record KeepsNewest (time : Text → Time) (keep : ℕ) (files out : List Text) : Type 0 where
  pub kept : List Text
  pub parts : (p : Text) → member p files ≡ (member p kept || member p out)
  pub count : length kept + length out ≡ length files
  pub enough : length kept ≤ keep
  pub full : out ≢ [] → length kept ≡ keep
  pub newest : (p q : Text) → member p out ≡ true → member q kept ≡ true → time p ≤ time q

-- No later file of the list is newer than an earlier one.
data Descending (time : Text → Time) : List Text → Type 0 where
  end : Descending time []
  step :
      {p : Text} {ps : List Text}
      → ((q : Text) → member q ps ≡ true → time q ≤ time p)
      → Descending time ps
      → Descending time (p ∷ ps)

module _ (time : Text → Time) where
  member-insert_newest :
      (x p : Text) (ps : List Text) → member x (insert_newest time p ps) ≡ ((x == p) || member x ps)
  unfolding insert_newest member
  member-insert_newest x p [] = refl
  member-insert_newest x p (q ∷ qs) = ground (arith, member-insert_newest x p qs)

  length-insert_newest :
      (p : Text) (ps : List Text) → length (insert_newest time p ps) ≡ suc (length ps)
  unfolding insert_newest
  length-insert_newest p [] = refl
  length-insert_newest p (q ∷ qs) = ground (arith, length-insert_newest p qs)

  insert_newest-Descending :
      (p : Text) (ps : List Text) → Descending time ps → Descending time (insert_newest time p ps)
  unfolding insert_newest member
  insert_newest-Descending p [] d = step (λ q h. cc) end
  insert_newest-Descending p (q ∷ qs) (step below d) = elim (Bool-cases (ltb (time p) (time q))) [
    | inl e ↦ rw e (
        step {p = q} {ps = insert_newest time p qs}
          (λ x m. elim (Bool-cases (x == p)) [
            | inl t ↦ rw (eq_of_== x p t) (ground arith)
            | inr t ↦ below x (ground (arith, member-insert_newest x p qs))
          ])
          (insert_newest-Descending p qs d))
    | inr e ↦ rw e (
        step {p = p} {ps = q ∷ qs}
          (λ x m. elim (Bool-cases (x == q)) [
            | inl t ↦ rw (eq_of_== x q t) (ground arith)
            | inr t ↦ ground (arith, below x)
          ])
          (step below d))
  ]

  member-by_time : (x : Text) (ps : List Text) → member x (by_time time ps) ≡ member x ps
  unfolding by_time member
  member-by_time x [] = refl
  member-by_time x (p ∷ ps) =
      ground (arith, member-insert_newest x p (by_time time ps), member-by_time x ps)

  length-by_time : (ps : List Text) → length (by_time time ps) ≡ length ps
  unfolding by_time
  length-by_time [] = refl
  length-by_time (p ∷ ps) =
      omega (arith, length-insert_newest p (by_time time ps), length-by_time ps)

  by_time-Descending : (ps : List Text) → Descending time (by_time time ps)
  unfolding by_time
  by_time-Descending [] = end
  by_time-Descending (p ∷ ps) = insert_newest-Descending p (by_time time ps) (by_time-Descending ps)

member-take : (x : Text) (n : ℕ) (ps : List Text) → member x (take n ps) ≡ true → member x ps ≡ true
unfolding member
member-take x zero ps h = cc
member-take x (suc n) [] h = h
member-take x (suc n) (p ∷ ps) h = ground (arith, member-take x n ps)

member-drop : (x : Text) (n : ℕ) (ps : List Text) → member x (drop n ps) ≡ true → member x ps ≡ true
unfolding member
member-drop x zero ps h = h
member-drop x (suc n) [] h = h
member-drop x (suc n) (p ∷ ps) h = ground (arith, member-drop x n ps)

Descending-newest :
    (time : Text → Time) (n : ℕ) (ps : List Text) (p q : Text)
    → Descending time ps
    → member p (drop n ps) ≡ true
    → member q (take n ps) ≡ true
    → time p ≤ time q
unfolding member
Descending-newest time zero ps p q d h k = cc
Descending-newest time (suc n) [] p q d h k = cc
Descending-newest time (suc n) (x ∷ ps) p q (step below d) h k = elim (Bool-cases (q == x)) [
  | inl e ↦ rw (eq_of_== q x e) (below p (member-drop p n ps h))
  | inr e ↦ Descending-newest time n ps p q d h (ground arith)
]

length-take_le : (n : ℕ) (ps : List Text) → length (take n ps) ≤ n
length-take_le zero ps = omega arith
length-take_le (suc n) [] = omega arith
length-take_le (suc n) (p ∷ ps) = omega (arith, length-take_le n ps)

length-take_full : (n : ℕ) (ps : List Text) → drop n ps ≢ [] → length (take n ps) ≡ n
length-take_full zero ps h = refl
length-take_full (suc n) [] h = absurd (h refl)
length-take_full (suc n) (p ∷ ps) h = omega (arith, length-take_full n ps h)

-- The candidates of a rule that keeps at least one file leave the newest of its files, as many as it
-- keeps; with a lower number a rule has no candidates.
pub rule_candidates-KeepsNewest :
    (glob_match : Text → Text → Bool) (snap : Snapshot) (rule : KeepLatestRule)
    → ltb_ℤ rule.keep (pos 1) ≡ false
    → KeepsNewest
        (time_of snap)
        (pos_part rule.keep)
        (matching glob_match rule.glob (keys snap.files))
        (rule_candidates glob_match snap rule)
unfolding rule_candidates
rule_candidates-KeepsNewest glob_match snap rule some_kept =
    let time = time_of snap in
    let keep = pos_part rule.keep in
    let files = matching glob_match rule.glob (keys snap.files) in
    let sorted = by_time time files in
    rw some_kept (record {
      kept = take keep sorted;
      parts = λ p.
          sym (member-by_time time p files)
          ∙ ap (member p) (sym (take-append-drop keep sorted))
          ∙ member-append p (take keep sorted) (drop keep sorted);
      count = omega (
        arith,
        length-append {0} (take keep sorted) (drop keep sorted),
        ap length (take-append-drop keep sorted),
        length-by_time time files,
      );
      enough = length-take_le keep sorted;
      full = length-take_full keep sorted;
      newest = λ p q. Descending-newest time keep sorted p q (by_time-Descending time files);
    })
