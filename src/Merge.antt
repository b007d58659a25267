-- ===== src/Merge.antt =====
-- internal/merge/merge.go, `Merge` and the rendering of its chunks.
pub mod Lines
pub mod Lcs
pub mod Chunks
pub mod Laws
pub mod Symmetry
use mathlib.Core.List.{flatten}
use yggsync.Prelude.{
  ℕ, ◌+◌, ◌≡◌, refl, Bool, true, false, List, [], ◌∷◌, ◌++◌, ◌==◌, Text, text_eq, nat_eq, codes,
}
use yggsync.Prelude.{Option, some, ◌>>=◌, if◌then◌else◌, text_dec, ℕ_discrete}
use yggsync.Merge.Lines.{newline, split_lines}
use yggsync.Merge.Chunks.{Chunk, diff3_chunks}

pub record Result : Type 0 where
  pub merged : Text
  pub clean : Bool
  pub conflicts : ℕ

abbrev marker_ours : Text
marker_ours = codes "<<<<<<< ours"

abbrev marker_base : Text
marker_base = codes "||||||| base"

abbrev marker_mid : Text
marker_mid = codes "======="

abbrev marker_end : Text
marker_end = codes ">>>>>>> theirs"

-- The builder `sb` is the text that it holds so far.
unfoldable pub write_line : Text → Text → Text
write_line sb s = sb ++ s ++ newline ∷ []

-- `strings.HasSuffix(s, "\n")`
unfoldable pub ends_line : Text → Bool
unfolding ℕ_discrete
ends_line [] = false
ends_line (c ∷ []) = c == newline
ends_line (c ∷ d ∷ s) = ends_line (d ∷ s)

unfoldable pub ensure_nl : Text → List Text → Text
unfolding ends_line
ensure_nl sb [] = sb
ensure_nl sb (l ∷ []) = if ends_line l then sb else sb ++ newline ∷ []
ensure_nl sb (l ∷ m ∷ ls) = ensure_nl sb (m ∷ ls)

-- The loop that writes lines to the builder.
unfoldable pub write_all : Text → List Text → Text
write_all sb [] = sb
write_all sb (l ∷ ls) = write_all (sb ++ l) ls

unfoldable pub write_marker_block : Text → List Text → List Text → List Text → Text
unfolding write_line ensure_nl write_all
write_marker_block sb a o b =
    let sb1 = ensure_nl (write_all (write_line sb marker_ours) a) a in
    let sb2 = ensure_nl (write_all (write_line sb1 marker_base) o) o in
    let sb3 = ensure_nl (write_all (write_line sb2 marker_mid) b) b in write_line sb3 marker_end

-- The loop over the chunks, with the builder and the number of conflicts.
unfoldable pub write_chunks : List Chunk → Text → ℕ → Text × ℕ
unfolding write_all write_marker_block
write_chunks [] sb conflicts = (sb, conflicts)
write_chunks (c ∷ cs) sb conflicts = elim c.conflict [
  | false ↦ write_chunks cs (write_all sb c.lines) conflicts
  | true ↦ write_chunks cs (write_marker_block sb c.a_lines c.o_lines c.b_lines) (conflicts + 1)
]

abbrev pub taken : Text → Result
taken t = record { merged = t; clean = true; conflicts = 0 }

unfoldable pub chunked : List Chunk → Result
unfolding write_chunks ℕ_discrete
chunked chunks =
    let (sb, conflicts) = write_chunks chunks [] 0 in
    record { merged = sb; clean = conflicts == 0; conflicts = conflicts }

-- `none` is a panic.
unfoldable pub merge : Text → Text → Text → Option Result
unfolding diff3_chunks split_lines chunked text_dec
merge base a b =
    let merged : Option Result = (do
      chunks ← diff3_chunks (split_lines base) (split_lines a) (split_lines b)
      some (chunked chunks)) in
    if a == b
    then some (taken a)
    else if a == base
    then some (taken b)
    else if b == base
    then some (taken a)
    else merged
