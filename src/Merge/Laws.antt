-- ===== src/Merge/Laws.antt =====
-- internal/merge/merge.go, `Merge`: what a merge returns, on every branch.
use mathlib.Core.List.{flatten}
use yggsync.Prelude.{
  ℕ, suc, ◌+◌, ◌≡◌, refl, ap, sym, ◌∙◌, true, false, List, [], ◌∷◌, ◌++◌, map, Text,
}
use yggsync.Prelude.{
  text_eq, nat_eq, ◌==◌, if◌then◌else◌, ◌↔◌, some, arith, append-nil, append_assoc, Bool-cases, inl,
  inr,
}
use yggsync.Prelude.{eq_of_==}
use yggsync.Merge.{
  Result, taken, chunked, write_line, ensure_nl, ends_line, write_all, write_marker_block,
  write_chunks, merge,
}
use yggsync.Merge.Lines.{newline, split_lines}
use yggsync.Merge.Lines.Laws.{flatten-split_lines}
use yggsync.Merge.Chunks.{Chunk, resolved}
use yggsync.Merge.Chunks.Regions.{
  Segmented, region, finish, Resolves, theirs, ours, both, diff3_chunks-Segmented,
}

-- The text of a chunk: its resolved lines, or both sides between markers.
unfoldable pub chunk_text : Chunk → Text
chunk_text c = elim c.conflict [
  | false ↦ flatten c.lines
  | true ↦ write_marker_block [] c.a_lines c.o_lines c.b_lines
]

unfoldable pub conflicts_of : List Chunk → ℕ
conflicts_of [] = 0
conflicts_of (c ∷ cs) = elim c.conflict [ false ↦ conflicts_of cs | true ↦ suc (conflicts_of cs) ]

write_all-append : (sb : Text) (ls : List Text) → write_all sb ls ≡ sb ++ flatten ls
unfolding write_all flatten
write_all-append sb [] = sym (append-nil sb)
write_all-append sb (l ∷ ls) = write_all-append (sb ++ l) ls ∙ append_assoc sb l (flatten ls)

pub write_chunks-conflicts :
    (cs : List Chunk) (sb : Text) (n : ℕ) → (write_chunks cs sb n).1 ≡ n + conflicts_of cs
unfolding write_chunks conflicts_of
write_chunks-conflicts [] sb n = omega arith
write_chunks-conflicts (c ∷ cs) sb n = elim (Bool-cases c.conflict) [
  | inl e ↦
      rw (e, write_chunks, conflicts_of)
        (omega (
          arith,
          write_chunks-conflicts cs (write_marker_block sb c.a_lines c.o_lines c.b_lines) (n + 1),
        ))
  | inr e ↦ rw (e, write_chunks, conflicts_of) (write_chunks-conflicts cs _ n)
]

-- The newline that `ensureNL` adds after lines.
abbrev nl_after : List Text → Text
nl_after [] = []
nl_after (l ∷ []) = if ends_line l then [] else newline ∷ []
nl_after (l ∷ m ∷ ls) = nl_after (m ∷ ls)

ensure_nl-append : (sb : Text) (ls : List Text) → ensure_nl sb ls ≡ sb ++ nl_after ls
unfolding ensure_nl
ensure_nl-append sb [] = sym (append-nil sb)
ensure_nl-append sb (l ∷ []) = ground (arith, append-nil sb)
ensure_nl-append sb (l ∷ m ∷ ls) = ensure_nl-append sb (m ∷ ls)

write_line-append : (sb s : Text) → write_line sb s ≡ sb ++ (s ++ newline ∷ [])
unfolding write_line
write_line-append sb s = append_assoc sb s (newline ∷ [])

write_marker_block-append :
    (sb : Text) (a o b : List Text)
    → write_marker_block sb a o b ≡ sb ++ write_marker_block [] a o b
unfolding write_marker_block
write_marker_block-append sb a o b =
    simp (write_line-append, ensure_nl-append, write_all-append, append_assoc)

pub write_chunks-text :
    (cs : List Chunk) (sb : Text) (n : ℕ)
    → (write_chunks cs sb n).0 ≡ sb ++ flatten (map chunk_text cs)
unfolding write_chunks flatten chunk_text
write_chunks-text [] sb n = sym (append-nil sb)
write_chunks-text (c ∷ cs) sb n = elim (Bool-cases c.conflict) [
  | inl e ↦
      rw (e, write_chunks, chunk_text)
        (write_chunks-text cs _ _
          ∙ ap (λ t. t ++ flatten (map chunk_text cs))
              (write_marker_block-append sb c.a_lines c.o_lines c.b_lines)
          ∙ append_assoc sb _ _)
  | inr e ↦
      rw (e, write_chunks, chunk_text)
        (write_chunks-text cs _ _
          ∙ ap (λ t. t ++ flatten (map chunk_text cs)) (write_all-append sb c.lines)
          ∙ append_assoc sb _ _)
]

-- What a merge of `a` and `b` over their ancestor has to return: the rendering of chunks that cut
-- the three texts into regions.
pub record IsMerge (base a b : Text) (r : Result) : Type 0 where
  pub chunks : List Chunk
  pub regions : Segmented (split_lines base) (split_lines a) (split_lines b) chunks
  pub text : r.merged ≡ flatten (map chunk_text chunks)
  pub count : r.conflicts ≡ conflicts_of chunks
  pub verdict : (r.clean ≡ true) ↔ (r.conflicts ≡ 0)

-- A merge by one region for the whole texts.
one_region :
    (base a b t : Text)
    → Resolves (split_lines base) (split_lines a) (split_lines b) (resolved (split_lines t))
    → IsMerge base a b (taken t)
unfolding chunk_text flatten conflicts_of
one_region base a b t h = record {
  chunks = resolved (split_lines t) ∷ [];
  regions =
      rw
        (
          ← append-nil (split_lines base),
          ← append-nil (split_lines a),
          ← append-nil (split_lines b),
        )
        (region (split_lines base) (split_lines a) (split_lines b) h finish);
  text = sym (append-nil (flatten (split_lines t)) ∙ flatten-split_lines t);
  count = refl;
  verdict = ground arith;
}

-- `Merge` returns without a panic, and what it returns is a merge.
pub merge-IsMerge :
    (base a b : Text) → (r : Result) × (merge base a b ≡ some r) × IsMerge base a b r
unfolding merge
merge-IsMerge base a b = elim (Bool-cases (a == b)) [
  | inl ab ↦
      (taken a, rw (ab, merge), one_region base a b a (both (ap split_lines (eq_of_== a b ab))))
  | inr ab ↦ elim (Bool-cases (a == base)) [
    | inl ao ↦ (
      taken b,
      rw (ab, ao, merge),
      one_region base a b b (theirs (ap split_lines (eq_of_== a base ao))),
    )
    | inr ao ↦ elim (Bool-cases (b == base)) [
      | inl bo ↦ (
        taken a,
        rw (ab, ao, bo, merge),
        one_region base a b a (ours (ap split_lines (eq_of_== b base bo))),
      )
      | inr bo ↦
          let (cs, ec, seg) =
            diff3_chunks-Segmented (split_lines base) (split_lines a) (split_lines b) in
          (
            chunked cs,
            rw (ab, ao, bo, ec, merge),
            record {
              chunks = cs;
              regions = seg;
              text = write_chunks-text cs [] 0;
              count = write_chunks-conflicts cs [] 0 ∙ omega arith;
              verdict = ground arith;
            },
          )
    ]
  ]
]
