-- ===== src/Merge/Chunks/Regions.antt =====
-- internal/merge/merge.go, `diff3Chunks`: the loop ends, within its bounds, and its chunks
-- are a segmentation of the three texts.
use yggsync.Prelude.{
  ℕ, zero, suc, ◌+◌, ◌-◌, ◌*◌, ◌≤◌, ◌<◌, ◌≡◌, ◌≢◌, refl, ap, sym, ◌∙◌, ◌⊎◌, inl, inr,
}
use yggsync.Prelude.{true, ◌&&◌, ◌||◌, List, [], ◌∷◌, ◌++◌, Text, Option, some, ◌>>=◌, arith}
use yggsync.Prelude.{
  length, take, drop, get_elem?, take-append-drop, drop-drop, drop_all, drop-get_elem?,
}
use yggsync.Prelude.{get_elem?-lt, ltb, Bool-cases, Option-cases, nat_eq, eq_of_==}
use yggsync.Prelude.Dict.{Dict, lookup}
use yggsync.Merge.Lines.{equal}
use yggsync.Merge.Lines.Laws.{equal_iff}
use yggsync.Merge.Lcs.{match_index}
use yggsync.Merge.Lcs.Matches.{SameLine, match_index-SameLine}
use yggsync.Merge.Chunks.{
  Chunk, resolved, diverged, slice, resolve_chunk, matched_at, sync_at, sync_loop, next_sync_point,
  trailing, chunks_loop, diff3_chunks,
}

-- What a region of the base `o`, of ours `a` and of theirs `b` has to become.
pub data Resolves (o a b : List Text) : Chunk → Type 0 where
  theirs : a ≡ o → Resolves o a b (resolved b)
  ours : b ≡ o → Resolves o a b (resolved a)
  both : a ≡ b → Resolves o a b (resolved a)
  neither : a ≢ o → b ≢ o → a ≢ b → Resolves o a b (diverged o a b)

-- The texts are cut into regions, one for each chunk.
pub data Segmented : List Text → List Text → List Text → List Chunk → Type 0 where
  finish : Segmented [] [] [] []
  region :
      (o a b : List Text) {o' a' b' : List Text} {c : Chunk} {cs : List Chunk}
      → Resolves o a b c
      → Segmented o' a' b' cs
      → Segmented (o ++ o') (a ++ a') (b ++ b') (c ∷ cs)

pub resolve_chunk-Resolves : (o a b : List Text) → Resolves o a b (resolve_chunk o a b)
unfolding resolve_chunk
resolve_chunk-Resolves o a b = elim (Bool-cases (equal a o)) [
  | inl ao ↦ elim (Bool-cases (equal b o)) [
    | inl bo ↦
        rw (ao, bo, resolve_chunk, ← (equal_iff b o).0 bo)
          (theirs ((equal_iff a o).0 ao ∙ sym ((equal_iff b o).0 bo)))
    | inr bo ↦ rw (ao, bo, resolve_chunk) (theirs ((equal_iff a o).0 ao))
  ]
  | inr ao ↦ elim (Bool-cases (equal b o)) [
    | inl bo ↦ rw (ao, bo, resolve_chunk) (ours ((equal_iff b o).0 bo))
    | inr bo ↦ elim (Bool-cases (equal a b)) [
      | inl ab ↦ rw (ao, bo, ab, resolve_chunk) (both ((equal_iff a b).0 ab))
      | inr ab ↦
          rw (ao, bo, ab, resolve_chunk)
            (neither (λ e. cc (ao, (equal_iff a o).1 e)) (λ e. cc (bo, (equal_iff b o).1 e))
              (λ e. cc (ab, (equal_iff a b).1 e)))
    ]
  ]
]

slice_lem :
    {A : Type 0} (xs : List A) (i j : ℕ)
    → i ≤ j
    → j ≤ length xs
    → (ys : List A) × (slice xs i j ≡ some ys) × (drop i xs ≡ ys ++ drop j xs)
unfolding slice
slice_lem xs i j h k = (
  take (j - i) (drop i xs),
  ground arith,
  sym (take-append-drop (j - i) (drop i xs))
      ∙ ap (λ r. take (j - i) (drop i xs) ++ r)
          (drop-drop (j - i) i xs ∙ ap (λ k. drop k xs) (omega arith)),
)

-- Where `nextSyncPoint` stops: in bounds, at or after the cursors, and at the end or in step.
record IsSync (o a b : List Text) (ma mb : Dict ℕ ℕ) (oi ai bi : ℕ) (r : ℕ × ℕ × ℕ) : Type 0 where
  o_bounds : (oi ≤ r.0) × (r.0 ≤ length o)
  a_bounds : (ai ≤ r.1) × (r.1 ≤ length a)
  b_bounds : (bi ≤ r.2) × (r.2 ≤ length b)
  stop : (r.0 ≡ length o) ⊎ ((matched_at ma r.0 r.1 && matched_at mb r.0 r.2) ≡ true)

abbrev IsMatchOf : List Text → List Text → Dict ℕ ℕ → Type 0
IsMatchOf o x m = (k : ℕ) (l : ℕ) → lookup k m ≡ some l → SameLine o x k l

drop_next :
    (n : ℕ) (xs : List Text) {x : Text}
    → get_elem? xs n ≡ some x
    → drop n xs ≡ (x ∷ []) ++ drop (n + 1) xs
drop_next n xs {x} e =
    drop-get_elem? n xs e ∙ ap (λ (k : ℕ). x ∷ drop k xs) {x = suc n} (omega arith)

module _ (o a b : List Text) (ma mb : Dict ℕ ℕ) (ha : IsMatchOf o a ma)
    (hb : IsMatchOf o b mb) where
  sync_at_lem :
      (k ai bi aj bj : ℕ)
      → sync_at o a b ma mb k ai bi ≡ some (aj, bj)
      → (ai ≤ aj)
        × (aj < length a)
        × (bi ≤ bj)
        × (bj < length b)
        × (k < length o)
        × ((matched_at ma k aj && matched_at mb k bj) ≡ true)
  unfolding sync_at matched_at
  sync_at_lem k ai bi aj bj e = elim (Option-cases (lookup k ma)) [
    | inl na ↦ ground arith
    | inr (l, la) ↦ elim (Option-cases (lookup k mb)) [
      | inl nb ↦ ground arith
      | inr (r, lb) ↦
          let (t, to, ta) = ha k l la in
          let (u, uo, ub) = hb k r lb in
          ground (arith, get_elem?-lt o k to, get_elem?-lt a l ta, get_elem?-lt b r ub)
    ]
  ]

  sync_loop-IsSync :
      (n k ai bi : ℕ)
      → n + k ≡ length o
      → ai ≤ length a
      → bi ≤ length b
      → IsSync o a b ma mb k ai bi (sync_loop o a b ma mb n k ai bi)
  unfolding sync_loop
  sync_loop-IsSync zero k ai bi e x y = record {
    o_bounds = omega arith;
    a_bounds = omega arith;
    b_bounds = omega arith;
    stop = inl refl;
  }
  sync_loop-IsSync (suc n) k ai bi e x y = elim (Option-cases (sync_at o a b ma mb k ai bi)) [
    | inl none_here ↦
        let ih = sync_loop-IsSync n (k + 1) ai bi (omega arith) x y in
        rw (none_here, sync_loop)
          (record {
            o_bounds = omega (arith, ih.o_bounds);
            a_bounds = ih.a_bounds;
            b_bounds = ih.b_bounds;
            stop = ih.stop;
          })
    | inr ((aj, bj), here) ↦
        let (p, q, r, s, t, m) = sync_at_lem k ai bi aj bj here in
        rw (here, sync_loop)
          (record {
            o_bounds = omega arith;
            a_bounds = omega arith;
            b_bounds = omega arith;
            stop = inr m;
          })
  ]

  -- The cursors stand within the texts.
  abbrev InBounds : ℕ → ℕ → ℕ → Type 0
  InBounds oi ai bi = (oi ≤ length o) × (ai ≤ length a) × (bi ≤ length b)

  -- The loop returns chunks that cut what is left of the texts.
  abbrev Cuts : ℕ → ℕ → ℕ → Option (List Chunk) → Type 0
  Cuts oi ai bi r =
      (cs : List Chunk) × (r ≡ some cs) × Segmented (drop oi o) (drop ai a) (drop bi b) cs

  trailing-Cuts :
      (oi ai bi : ℕ)
      → oi ≡ length o
      → ai ≤ length a
      → bi ≤ length b
      → Cuts oi ai bi (trailing o a b ma mb ai bi)
  unfolding trailing
  trailing-Cuts oi ai bi e x y = elim (Bool-cases (ltb ai (length a) || ltb bi (length b))) [
    | inl more ↦
        let (xs, ea, da) = slice_lem a ai (length a) x (omega arith) in
        let (ys, eb, db) = slice_lem b bi (length b) y (omega arith) in
        (
          resolve_chunk [] xs ys ∷ [],
          rw (more, ea, eb, trailing),
          rw
              (
                drop_all oi o (omega arith),
                da,
                db,
                drop_all (length a) a (omega arith),
                drop_all (length b) b (omega arith),
              )
              (region [] xs ys (resolve_chunk-Resolves [] xs ys) finish),
        )
    | inr over ↦ (
      [],
      rw (over, trailing),
      rw (drop_all oi o (omega arith), drop_all ai a (ground arith), drop_all bi b (ground arith))
          finish,
    )
  ]

  -- The rounds that are left are enough: two for each base line, one less where the cursors are
  -- in step or the base is read.
  abbrev Enough : ℕ → ℕ → ℕ → ℕ → Type 0
  Enough f oi ai bi =
      (2 * (length o - oi) + 1 < f)
      ⊎ (((oi ≡ length o) ⊎ ((matched_at ma oi ai && matched_at mb oi bi) ≡ true))
          × (2 * (length o - oi) < f))

  matched_at-SameLine :
      (k i : ℕ) (x : List Text) (m : Dict ℕ ℕ)
      → IsMatchOf o x m
      → matched_at m k i ≡ true
      → SameLine o x k i
  unfolding matched_at
  matched_at-SameLine k i x m h e = elim (Option-cases (lookup k m)) [
    | inl absent ↦ absurd (ground arith)
    | inr (j, found) ↦ let same : j ≡ i = eq_of_== j i (ground arith) in rw same at (h k j found)
  ]

  agreed-lt :
      (oi ai bi : ℕ)
      → (matched_at ma oi ai && matched_at mb oi bi) ≡ true
      → (oi < length o) × (ai < length a) × (bi < length b)
  agreed-lt oi ai bi e =
      let (t, ot, at) = matched_at-SameLine oi ai a ma ha (ground arith) in
      let (u, ou, bu) = matched_at-SameLine oi bi b mb hb (ground arith) in
      (get_elem?-lt o oi ot, get_elem?-lt a ai at, get_elem?-lt b bi bu)

  Segmented-agreed :
      (oi ai bi : ℕ) (t : Text) (cs : List Chunk)
      → get_elem? o oi ≡ some t
      → get_elem? a ai ≡ some t
      → get_elem? b bi ≡ some t
      → Segmented (drop (oi + 1) o) (drop (ai + 1) a) (drop (bi + 1) b) cs
      → Segmented (drop oi o) (drop ai a) (drop bi b) (resolved (t ∷ []) ∷ cs)
  Segmented-agreed oi ai bi t cs ot at bt seg =
      rw (drop_next oi o ot, drop_next ai a at, drop_next bi b bt)
        (region (t ∷ []) (t ∷ []) (t ∷ []) (theirs refl) seg)

  Cuts-agreed :
      (oi ai bi : ℕ) (rest : Option (List Chunk))
      → (matched_at ma oi ai && matched_at mb oi bi) ≡ true
      → Cuts (oi + 1) (ai + 1) (bi + 1) rest
      → Cuts oi ai bi (do x ← get_elem? o oi; cs ← rest; some (resolved (x ∷ []) ∷ cs))
  Cuts-agreed oi ai bi rest e (cs, ec, seg) =
      let (t, ot, at) = matched_at-SameLine oi ai a ma ha (ground arith) in
      let (u, ou, bu) = matched_at-SameLine oi bi b mb hb (ground arith) in
      (
        resolved (t ∷ []) ∷ cs,
        rw (ot, ec),
        Segmented-agreed oi ai bi t cs ot at (ground (arith, ot, ou, bu)) seg,
      )

  Cuts-apart :
      (oi ai bi oj aj bj : ℕ) (rest : Option (List Chunk))
      → (oi ≤ oj) × (oj ≤ length o)
      → (ai ≤ aj) × (aj ≤ length a)
      → (bi ≤ bj) × (bj ≤ length b)
      → Cuts oj aj bj rest
      → Cuts oi ai bi (do
        o_part ← slice o oi oj
        a_part ← slice a ai aj
        b_part ← slice b bi bj
        cs ← rest
        some (resolve_chunk o_part a_part b_part ∷ cs))
  Cuts-apart oi ai bi oj aj bj rest ho₁ ha₁ hb₁ (cs, ec, seg) =
      let (os, eo, oo) = slice_lem o oi oj ho₁.0 ho₁.1 in
      let (xs, ea, da) = slice_lem a ai aj ha₁.0 ha₁.1 in
      let (ys, eb, db) = slice_lem b bi bj hb₁.0 hb₁.1 in
      (
        resolve_chunk os xs ys ∷ cs,
        rw (eo, ea, eb, ec),
        rw (oo, da, db) (region os xs ys (resolve_chunk-Resolves os xs ys) seg),
      )

  chunks_loop-Cuts :
      (f oi ai bi : ℕ)
      → InBounds oi ai bi
      → Enough f oi ai bi
      → Cuts oi ai bi (chunks_loop o a b ma mb f oi ai bi)
  unfolding chunks_loop next_sync_point
  chunks_loop-Cuts zero oi ai bi h e = absurd (omega arith)
  chunks_loop-Cuts (suc f) oi ai bi h e = elim (Bool-cases (ltb oi (length o))) [
    | inr over ↦ rw (over, chunks_loop) (trailing-Cuts oi ai bi (ground arith) h.1 h.2)
    | inl more ↦ elim (Bool-cases (matched_at ma oi ai && matched_at mb oi bi)) [
      | inl agreed ↦
          rw (more, agreed, chunks_loop)
            (Cuts-agreed oi ai bi _ agreed (
              chunks_loop-Cuts f (oi + 1) (ai + 1) (bi + 1)
                (omega (arith, agreed-lt oi ai bi agreed)) (inl (ground arith))))
      | inr apart ↦
          let s = sync_loop-IsSync (length o - oi) oi ai bi (omega arith) h.1 h.2 in
          let r = next_sync_point o a b ma mb oi ai bi in
          rw (more, apart, chunks_loop)
            (Cuts-apart oi ai bi r.0 r.1 r.2 _ s.o_bounds s.a_bounds s.b_bounds (
              chunks_loop-Cuts f r.0 r.1 r.2 (s.o_bounds.1, s.a_bounds.1, s.b_bounds.1)
                (inr (s.stop, ground (arith, s.o_bounds)))))
    ]
  ]

-- `diff3Chunks` ends without a panic, and cuts the three texts into regions, each resolved rightly.
pub diff3_chunks-Segmented :
    (o a b : List Text) → (cs : List Chunk) × (diff3_chunks o a b ≡ some cs) × Segmented o a b cs
unfolding diff3_chunks
diff3_chunks-Segmented o a b =
    chunks_loop-Cuts o a b (match_index o a) (match_index o b)
      (λ k l e. match_index-SameLine o a k e) (λ k l e. match_index-SameLine o b k e)
      (2 * length o + 2) 0 0 0 (omega arith) (inl (omega arith))
