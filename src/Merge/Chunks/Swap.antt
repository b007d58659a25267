-- ===== src/Merge/Chunks/Swap.antt =====
-- internal/merge/merge.go, `diff3Chunks`: what becomes of the chunks when ours and theirs change places.
use mathlib.Core.Option
use mathlib.Core.Option.{Option, none, some}
use yggsync.Prelude.{ℕ, zero, suc, ◌+◌, ◌-◌, ◌*◌, ◌≡◌, refl}
use yggsync.Prelude.{true, false, ◌&&◌, List, [], ◌∷◌, map, Text, ◌>>=◌, arith}
use yggsync.Prelude.{length, take, drop, ltb, Bool-cases, inl, inr}
use yggsync.Prelude.Dict.{Dict}
use yggsync.Merge.Lines.Laws.{equal_iff}
use yggsync.Merge.Lcs.{match_index}
use yggsync.Merge.Chunks.{
  Chunk, slice, resolve_chunk, matched_at, sync_at, sync_loop, next_sync_point, trailing,
  chunks_loop, diff3_chunks,
}

abbrev pub swap_chunk : Chunk → Chunk
swap_chunk c = record c { a_lines = c.b_lines; b_lines = c.a_lines }

resolve_chunk-swap : (o a b : List Text) → resolve_chunk o b a ≡ swap_chunk (resolve_chunk o a b)
unfolding resolve_chunk
resolve_chunk-swap o a b =
    ground (arith, equal_iff a o, equal_iff b o, equal_iff a b, equal_iff b a)

module _ (o a b : List Text) (ma mb : Dict ℕ ℕ) where
  sync_loop-swap :
      (n k ai bi : ℕ)
      → sync_loop o b a mb ma n k bi ai
        ≡ (let (x, y, z) = sync_loop o a b ma mb n k ai bi in (x, z, y))
  unfolding sync_loop sync_at
  sync_loop-swap zero k ai bi = refl
  sync_loop-swap (suc n) k ai bi = ground (arith, sync_loop-swap n (k + 1) ai bi)

  trailing-swap :
      (ai bi : ℕ)
      → trailing o b a mb ma bi ai ≡ Option.map (map swap_chunk) (trailing o a b ma mb ai bi)
  unfolding trailing
  trailing-swap ai bi = ground (
    arith,
    resolve_chunk-swap [] (take (length a - ai) (drop ai a)) (take (length b - bi) (drop bi b)),
  )

  region-swap :
      (os us vs : Option (List Text)) (rest rest' : Option (List Chunk))
      → rest' ≡ Option.map (map swap_chunk) rest
      → (do
        o_part ← os
        b_part ← vs
        a_part ← us
        cs ← rest'
        some (resolve_chunk o_part b_part a_part ∷ cs))
        ≡ Option.map (map swap_chunk) (do
          o_part ← os
          a_part ← us
          b_part ← vs
          cs ← rest
          some (resolve_chunk o_part a_part b_part ∷ cs))
  region-swap none us vs rest rest' e = refl
  region-swap (some x) none none rest rest' e = refl
  region-swap (some x) none (some z) rest rest' e = refl
  region-swap (some x) (some y) none rest rest' e = refl
  region-swap (some x) (some y) (some z) rest rest' e = ground (arith, resolve_chunk-swap x y z)

  chunks_loop-swap :
      (f oi ai bi : ℕ)
      → chunks_loop o b a mb ma f oi bi ai
        ≡ Option.map (map swap_chunk) (chunks_loop o a b ma mb f oi ai bi)
  unfolding chunks_loop next_sync_point
  chunks_loop-swap zero oi ai bi = refl
  chunks_loop-swap (suc f) oi ai bi = elim (Bool-cases (ltb oi (length o))) [
    | inr over ↦ rw (over, chunks_loop) (trailing-swap ai bi)
    | inl more ↦ elim (Bool-cases (matched_at ma oi ai && matched_at mb oi bi)) [
      | inl agreed ↦
          let flipped : (matched_at mb oi bi && matched_at ma oi ai) ≡ true = ground arith in
          rw (more, agreed, flipped, chunks_loop)
            (ground (arith, chunks_loop-swap f (oi + 1) (ai + 1) (bi + 1)))
      | inr apart ↦
          let flipped : (matched_at mb oi bi && matched_at ma oi ai) ≡ false = ground arith in
          let r = next_sync_point o a b ma mb oi ai bi in
          rw (more, apart, flipped, chunks_loop, sync_loop-swap (length o - oi) oi ai bi)
            (region-swap (slice o oi r.0) (slice a ai r.1) (slice b bi r.2)
              (chunks_loop o a b ma mb f r.0 r.1 r.2) (chunks_loop o b a mb ma f r.0 r.2 r.1)
              (chunks_loop-swap f r.0 r.1 r.2))
    ]
  ]

-- Changing the places of ours and theirs changes the places of the two sides in each chunk.
pub diff3_chunks-swap :
    (o a b : List Text) → diff3_chunks o b a ≡ Option.map (map swap_chunk) (diff3_chunks o a b)
unfolding diff3_chunks
diff3_chunks-swap o a b =
    chunks_loop-swap o a b (match_index o a) (match_index o b) (2 * length o + 2) 0 0 0
