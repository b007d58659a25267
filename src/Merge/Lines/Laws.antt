-- ===== src/Merge/Lines/Laws.antt =====
-- internal/merge/merge.go: what `splitLines` and `equal` compute.
use mathlib.Core.List.{flatten}
use yggsync.Prelude.{ℕ, ◌≡◌, ◌≢◌, refl, ap, ◌∙◌, true, List, [], ◌∷◌, ◌++◌}
use yggsync.Prelude.{
  Text, text_eq, nat_eq, arith, append_assoc, append-nil, ◌↔◌, ℕ_discrete, ==_of_eq, ==_of_ne,
}
use yggsync.Merge.Lines.{newline, split_loop, split_lines, equal}

flatten-split_loop : (line s : Text) → flatten (split_loop line s) ≡ line ++ s
unfolding split_loop flatten
flatten-split_loop line [] = ground (arith, append-nil line)
flatten-split_loop line (c ∷ s) = ground (
  arith,
  flatten-split_loop [] s,
  flatten-split_loop (line ++ c ∷ []) s,
  append_assoc line (c ∷ []) s,
)

-- Nothing of a text is lost when it is split.
pub flatten-split_lines : (s : Text) → flatten (split_lines s) ≡ s
unfolding split_lines flatten
flatten-split_lines [] = ground arith
flatten-split_lines (c ∷ s) = ground (arith, flatten-split_loop [] (c ∷ s))

abbrev NoNewline : Text → Type 0
NoNewline [] = Unit
NoNewline (c ∷ t) = (c ≢ newline) × NoNewline t

-- Each line but the last ends with its only newline; the last may lack it, and is then not empty.
pub data IsLines : List Text → Type 0 where
  empty : IsLines []
  unterminated : (c : ℕ) (t : Text) → c ≢ newline → NoNewline t → IsLines ((c ∷ t) ∷ [])
  line : (t : Text) (ls : List Text) → NoNewline t → IsLines ls → IsLines ((t ++ newline ∷ []) ∷ ls)

split_loop-line :
    (done t s : Text)
    → NoNewline t
    → split_loop done (t ++ newline ∷ s) ≡ (done ++ t ++ newline ∷ []) ∷ split_loop [] s
unfolding split_loop
split_loop-line done [] s h = ground (arith, append-nil done)
split_loop-line done (c ∷ t) s (h, hs) = ground (
  arith,
  split_loop-line (done ++ c ∷ []) t s hs,
  append_assoc done (c ∷ []) (t ++ newline ∷ []),
  append_assoc done (c ∷ []) t,
  append_assoc done t (newline ∷ []),
)

split_lines-eq-split_loop : (s : Text) → split_lines s ≡ split_loop [] s
unfolding split_lines split_loop
split_lines-eq-split_loop [] = ground arith
split_lines-eq-split_loop (c ∷ s) = ground arith

split_loop-NoNewline :
    (done t : Text) (c : ℕ) (rest : Text)
    → done ≡ c ∷ rest
    → NoNewline t
    → split_loop done t ≡ (done ++ t) ∷ []
unfolding split_loop
split_loop-NoNewline done [] c rest e h = ground (arith, append-nil done)
split_loop-NoNewline done (d ∷ t) c rest e (h, hs) = ground (
  arith,
  split_loop-NoNewline (done ++ d ∷ []) t c (rest ++ d ∷ []) (ap (λ z. z ++ d ∷ []) e) hs,
  append_assoc done (d ∷ []) t,
)

split_loop-flatten : (ls : List Text) → IsLines ls → split_loop [] (flatten ls) ≡ ls
unfolding split_loop flatten
split_loop-flatten _ empty = ground arith
split_loop-flatten _ (unterminated c t h hs) =
    ground (arith, split_loop-NoNewline (c ∷ []) t c [] refl hs, append-nil t)
split_loop-flatten _ (line t ls h hs) = rw (
  append_assoc t (newline ∷ []) (flatten ls),
  split_loop-line [] t (flatten ls) h,
  split_loop-flatten ls hs,
)

-- Splitting is the inverse of joining, on lists of lines.
pub split_lines-flatten : (ls : List Text) → IsLines ls → split_lines (flatten ls) ≡ ls
split_lines-flatten ls h = split_lines-eq-split_loop (flatten ls) ∙ split_loop-flatten ls h

NoNewline-append : (t : Text) (c : ℕ) → NoNewline t → c ≢ newline → NoNewline (t ++ c ∷ [])
NoNewline-append [] c h hc = (hc, tt)
NoNewline-append (d ∷ t) c (hd, h) hc = (hd, NoNewline-append t c h hc)

split_loop-IsLines : (done s : Text) → NoNewline done → IsLines (split_loop done s)
unfolding split_loop
split_loop-IsLines [] [] h = rw (==_of_eq {A = Text} [] [] refl) empty
split_loop-IsLines (c ∷ t) [] (hc, h) =
    rw (==_of_ne {A = Text} (c ∷ t) [] (λ p. cc)) (unterminated c t hc h)
split_loop-IsLines done (c ∷ s) h = elim (ℕ_discrete c newline) [
  | yes e ↦
      rw (==_of_eq c newline e, split_loop)
        (rw e (line done (split_loop [] s) h (split_loop-IsLines [] s tt)))
  | no ne ↦
      rw (==_of_ne c newline ne, split_loop)
        (split_loop-IsLines (done ++ c ∷ []) s (NoNewline-append done c h ne))
]

-- What `splitLines` returns are lines.
pub split_lines-IsLines : (s : Text) → IsLines (split_lines s)
split_lines-IsLines s = rw split_lines-eq-split_loop (split_loop-IsLines [] s tt)

pub equal_iff : (xs ys : List Text) → (equal xs ys ≡ true) ↔ (xs ≡ ys)
unfolding equal
equal_iff [] [] = ground arith
equal_iff [] (y ∷ ys) = ground arith
equal_iff (x ∷ xs) [] = ground arith
equal_iff (x ∷ xs) (y ∷ ys) = ground (arith, equal_iff xs ys)
