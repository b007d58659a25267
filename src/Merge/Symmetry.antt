-- ===== src/Merge/Symmetry.antt =====
-- internal/merge/merge.go, `Merge`: ours and theirs may change places.
use mathlib.Core.List.{flatten}
use mathlib.Core.Option
use yggsync.Prelude.{ℕ, ◌≡◌, refl, ap, sym, ◌∙◌, Bool, false, List, [], ◌∷◌, map, Text}
use yggsync.Prelude.{
  text_eq, nat_eq, ◌==◌, if◌then◌else◌, Option, none, some, arith, Bool-cases, inl, inr,
}
use yggsync.Prelude.{==_of_eq, ==_of_ne, eq_of_==, ◌>>=◌}
use yggsync.Merge.{Result, chunked, merge}
use yggsync.Merge.Laws.{chunk_text, conflicts_of, write_chunks-conflicts, write_chunks-text}
use yggsync.Merge.Lines.{split_lines}
use yggsync.Merge.Chunks.{Chunk, diff3_chunks}
use yggsync.Merge.Chunks.Swap.{swap_chunk, diff3_chunks-swap}

-- What a caller may rely on: the verdict, the number of conflicts, and the text of a clean merge.
abbrev pub outcome : Result → Bool × ℕ × Text
outcome r = (r.clean, r.conflicts, if r.clean then r.merged else [])

conflicts_of-swap : (cs : List Chunk) → conflicts_of (map swap_chunk cs) ≡ conflicts_of cs
unfolding conflicts_of
conflicts_of-swap [] = refl
conflicts_of-swap (c ∷ cs) = ground (arith, conflicts_of-swap cs)

chunk_text-swap :
    (cs : List Chunk)
    → conflicts_of cs ≡ 0
    → flatten (map chunk_text (map swap_chunk cs)) ≡ flatten (map chunk_text cs)
unfolding conflicts_of chunk_text flatten
chunk_text-swap [] e = refl
chunk_text-swap (c ∷ cs) e = ground (arith, chunk_text-swap cs)

outcome-chunked : (cs : List Chunk) → outcome (chunked (map swap_chunk cs)) ≡ outcome (chunked cs)
unfolding chunked
outcome-chunked cs =
    rw
      (
        write_chunks-conflicts cs [] 0,
        write_chunks-conflicts (map swap_chunk cs) [] 0,
        conflicts_of-swap cs,
        write_chunks-text cs [] 0,
        write_chunks-text (map swap_chunk cs) [] 0,
      )
      (ground (arith, chunk_text-swap cs))

map-chunked :
    (cs : Option (List Chunk))
    → Option.map outcome (do chunks ← Option.map (map swap_chunk) cs; some (chunked chunks))
      ≡ Option.map outcome (do chunks ← cs; some (chunked chunks))
map-chunked none = refl
map-chunked (some cs) = ap some (outcome-chunked cs)

-- Merging ours into theirs has the outcome of merging theirs into ours.
pub merge-swap :
    (base a b : Text) → Option.map outcome (merge base b a) ≡ Option.map outcome (merge base a b)
unfolding merge
merge-swap base a b = elim (Bool-cases (a == b)) [
  | inl ab ↦ rw (ab, merge, ==_of_eq b a (sym (eq_of_== a b ab)), eq_of_== a b ab)
  | inr ab ↦
      let ba : (b == a) ≡ false = ==_of_ne b a (λ p. cc (ab, ==_of_eq a b (sym p))) in
      elim (Bool-cases (a == base)) [
        | inl ao ↦
            let bo : (b == base) ≡ false =
              ==_of_ne b base (λ p. cc (ab, ==_of_eq a b (eq_of_== a base ao ∙ sym p))) in
            rw (ab, ba, ao, bo, merge)
        | inr ao ↦ elim (Bool-cases (b == base)) [
          | inl bo ↦ rw (ab, ba, ao, bo, merge)
          | inr bo ↦
              rw
                (
                  ab,
                  ba,
                  ao,
                  bo,
                  merge,
                  diff3_chunks-swap (split_lines base) (split_lines a) (split_lines b),
                )
                (map-chunked (diff3_chunks (split_lines base) (split_lines a) (split_lines b)))
        ]
      ]
]
