-- ===== src/Merge/Chunks.antt =====
-- internal/merge/merge.go, `chunk`, `diff3Chunks`, `nextSyncPoint` and `resolveChunk`.
pub mod Regions
pub mod Swap
use yggsync.Prelude.{
  ℕ, zero, suc, ◌+◌, ◌-◌, ◌*◌, Bool, true, false, ◌&&◌, ◌||◌, List, [], ◌∷◌, ◌==◌,
}
use yggsync.Prelude.{Text, nat_eq, Option, none, some, ◌>>=◌, if◌then◌else◌, ltb, leb}
use yggsync.Prelude.{length, take, drop, get_elem?, ℕ_discrete}
use yggsync.Prelude.Dict.{Dict, lookup}
use yggsync.Merge.Lines.{equal}
use yggsync.Merge.Lcs.{match_index}

pub record Chunk : Type 0 where
  pub conflict : Bool
  pub lines : List Text
  pub a_lines : List Text
  pub o_lines : List Text
  pub b_lines : List Text

-- The two composite literals of the source; the fields that they leave out are nil.
abbrev pub resolved : List Text → Chunk
resolved ls = record { conflict = false; lines = ls; a_lines = []; o_lines = []; b_lines = [] }

abbrev pub diverged : List Text → List Text → List Text → Chunk
diverged o a b = record { conflict = true; lines = []; a_lines = a; o_lines = o; b_lines = b }

-- `xs[i:j]`; `none` is the panic of a bound out of range.
unfoldable pub slice {ℓ} : {A : Type ℓ} → List A → ℕ → ℕ → Option (List A)
slice xs i j = if leb i j && leb j (length xs) then some (take (j - i) (drop i xs)) else none

unfoldable pub resolve_chunk : List Text → List Text → List Text → Chunk
unfolding equal
resolve_chunk o a b =
    let a_eq_o = equal a o in
    let b_eq_o = equal b o in
    if a_eq_o && b_eq_o
    then resolved o
    else if a_eq_o
    then resolved b
    else if b_eq_o
    then resolved a
    else if equal a b
    then resolved a
    else diverged o a b

-- `j, ok := m[k]; ok && j == i`
unfoldable pub matched_at : Dict ℕ ℕ → ℕ → ℕ → Bool
unfolding lookup ℕ_discrete
matched_at m k i = elim (lookup k m) [ none ↦ false | some j ↦ j == i ]

module _ (o a b : List Text) (ma mb : Dict ℕ ℕ) where
  -- `k` is matched on both sides, at or after the cursors.
  unfoldable pub sync_at : ℕ → ℕ → ℕ → Option (ℕ × ℕ)
  unfolding lookup ℕ_discrete
  sync_at k ai bi = do
    aj ← lookup k ma
    bj ← lookup k mb
    if leb ai aj && leb bi bj then some (aj, bj) else none

  -- The loop of `nextSyncPoint`, with the number of base lines that are left.
  unfoldable pub sync_loop : ℕ → ℕ → ℕ → ℕ → ℕ × ℕ × ℕ
  unfolding sync_at
  sync_loop zero k ai bi = (length o, length a, length b)
  sync_loop (suc n) k ai bi = elim (sync_at k ai bi) [
    | some (aj, bj) ↦ (k, aj, bj)
    | none ↦ sync_loop n (k + 1) ai bi
  ]

  unfoldable pub next_sync_point : ℕ → ℕ → ℕ → ℕ × ℕ × ℕ
  unfolding sync_loop
  next_sync_point oi ai bi = sync_loop (length o - oi) oi ai bi

  -- What follows the loop of `diff3Chunks`.
  unfoldable pub trailing : ℕ → ℕ → Option (List Chunk)
  unfolding slice resolve_chunk
  trailing ai bi =
      let rest : Option (List Chunk) = (do
        a_rest ← slice a ai (length a)
        b_rest ← slice b bi (length b)
        some (resolve_chunk [] a_rest b_rest ∷ [])) in
      if ltb ai (length a) || ltb bi (length b) then rest else some []

  -- The loop of `diff3Chunks` with fuel; `none` is a panic, or that the fuel ran out.
  unfoldable pub chunks_loop : ℕ → ℕ → ℕ → ℕ → Option (List Chunk)
  unfolding slice resolve_chunk matched_at next_sync_point trailing
  chunks_loop zero oi ai bi = none
  chunks_loop (suc f) oi ai bi = elim (ltb oi (length o)) [
    | false ↦ trailing ai bi
    | true ↦ elim (matched_at ma oi ai && matched_at mb oi bi) [
      | true ↦ do
        x ← get_elem? o oi
        rest ← chunks_loop f (oi + 1) (ai + 1) (bi + 1)
        some (resolved (x ∷ []) ∷ rest)
      | false ↦
          let (oj, aj, bj) = next_sync_point oi ai bi in
          do
            o_part ← slice o oi oj
            a_part ← slice a ai aj
            b_part ← slice b bi bj
            rest ← chunks_loop f oj aj bj
            some (resolve_chunk o_part a_part b_part ∷ rest)
    ]
  ]

-- Two rounds for each base line are enough, and one for the end.
unfoldable pub diff3_chunks : List Text → List Text → List Text → Option (List Chunk)
unfolding chunks_loop match_index
diff3_chunks o a b = chunks_loop o a b (match_index o a) (match_index o b) (2 * length o + 2) 0 0 0
