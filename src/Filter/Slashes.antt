-- ===== src/Filter/Slashes.antt =====
-- internal/filter/filter.go, `normalize`: its loop ends with no two slashes together.
use yggsync.Prelude.{
  length, zero, suc, ℕ, ◌≡◌, refl, sym, subst, ◌≤◌, ◌<◌, ◌+◌, Bool, true, false, [], ◌∷◌, Text,
  ◌==◌, nat_eq, if◌then◌else◌, arith, Bool-cases, inl, inr, ℕ_discrete, eq_of_==,
}
use yggsync.Prelude.Strings.{trim_space}
use yggsync.Backend.Paths.{slashed, trim_slash}
use yggsync.Filter.{drop_dot_slash, has_double, halve_slashes, single_slashes, normalize}

abbrev held : Bool → Text → Text
held true p = b'/' ∷ p
held false p = p

abbrev doubles : Text → ℕ
doubles p = if has_double p then 1 else 0

has_double-after : (c : ℕ) (p : Text) → (c == b'/') ≡ false → has_double (c ∷ p) ≡ has_double p
unfolding has_double
has_double-after c [] h = refl
has_double-after c (b ∷ p) h = rw h refl

doubles-le : (p : Text) → doubles p ≤ 1
doubles-le p = elim (Bool-cases (has_double p)) [
  | inl e ↦ rw e (omega arith)
  | inr e ↦ rw e (omega arith)
]

-- The replaced text is shorter by at least one byte where there was a pair.
halve_slashes-shorter :
    (waits : Bool) (p : Text)
    → length (halve_slashes waits p) + doubles (held waits p) ≤ length (held waits p)
unfolding halve_slashes has_double ℕ_discrete
halve_slashes-shorter false [] = omega arith
halve_slashes-shorter true [] = omega arith
halve_slashes-shorter false (c ∷ p) = elim (Bool-cases (c == b'/')) [
  | inl e ↦ rw e (
      subst (λ x. length (halve_slashes true p) + doubles (x ∷ p) ≤ suc (length p))
        (sym (eq_of_== c b'/' e)) (halve_slashes-shorter true p))
  | inr e ↦ rw (e, has_double-after c p e) (let k = halve_slashes-shorter false p in omega arith)
]
halve_slashes-shorter true (c ∷ p) = elim (Bool-cases (c == b'/')) [
  | inl e ↦
      rw e
        (let k = halve_slashes-shorter false p in let d = doubles-le (b'/' ∷ c ∷ p) in omega arith)
  | inr e ↦ rw (e, has_double-after c p e) (let k = halve_slashes-shorter false p in omega arith)
]

halve_slashes-lt : (p : Text) → has_double p ≡ true → length (halve_slashes false p) < length p
halve_slashes-lt p h =
    let k =
      subst (λ b. length (halve_slashes false p) + (if b then 1 else 0) ≤ length p) h
        (halve_slashes-shorter false p) in
    omega arith

single_slashes-no_double :
    (n : ℕ) (p : Text) → length p ≤ n → has_double (single_slashes n p) ≡ false
unfolding single_slashes has_double
single_slashes-no_double zero [] h = refl
single_slashes-no_double zero (c ∷ p) h = absurd (omega arith)
single_slashes-no_double (suc n) p h = elim (Bool-cases (has_double p)) [
  | inl e ↦ rw e (
      single_slashes-no_double n (halve_slashes false p)
        (let k = halve_slashes-lt p e in omega arith))
  | inr e ↦ rw e e
]

-- The loop of `normalize` ends before its fuel does: no two slashes are together in what it gives.
pub normalize-no_double : (p : Text) → has_double (normalize p) ≡ false
unfolding normalize
normalize-no_double p =
    let q = trim_slash (drop_dot_slash (slashed (trim_space p))) in
    single_slashes-no_double (length q) q (omega arith)
