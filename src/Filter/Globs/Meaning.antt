-- ===== src/Filter/Globs/Meaning.antt =====
-- internal/filter/filter.go, `compile` and `match`: which paths a glob matches.
use yggsync.Prelude.{
  ℕ, ◌≡◌, ◌≢◌, refl, sym, subst, ◌∙◌, ◌↔◌, Bool, true, false, not, ◌&&◌, ◌||◌, List, [], ◌∷◌, ◌++◌,
  Text, ◌==◌, nat_eq, text_eq, ltb, if◌then◌else◌, arith, Bool-cases, inl, inr, ==_of_ne, ==_of_eq,
  eq_of_==, ℕ_discrete,
}
use yggsync.Prelude.Strings.{has_byte}
use yggsync.Prelude.Results.{Result, ok}
use yggsync.Filter.{GlobMatcher, is_nil, normalize, base, subject, match_glob, compile}
use yggsync.Filter.Globs.{
  Piece, literal, any_char, star, folders, anything, print, IsGlob, anchored, glob_to_regex-print,
}

-- The texts that a glob matches: `?` and `*` stay within one element of a path, `**/` stands for
-- any leading folders or none, and a newline is in no text for `**`.
pub data Matches : List Piece → Text → Type 0 where
  end : Matches [] []
  as_is : (c : ℕ) (ps : List Piece) (t : Text) → Matches ps t → Matches (literal c ∷ ps) (c ∷ t)
  one :
      (x : ℕ) (ps : List Piece) (t : Text)
      → (x == b'/') ≡ false
      → Matches ps t
      → Matches (any_char ∷ ps) (x ∷ t)
  within :
      (u : Text) (ps : List Piece) (t : Text)
      → has_byte b'/' u ≡ false
      → Matches ps t
      → Matches (star ∷ ps) (u ++ t)
  across :
      (u : Text) (ps : List Piece) (t : Text)
      → has_byte 10 u ≡ false
      → Matches ps t
      → Matches (anything ∷ ps) (u ++ t)
  at_root : (ps : List Piece) (t : Text) → Matches ps t → Matches (folders ∷ ps) t
  deeper :
      (u : Text) (ps : List Piece) (t : Text)
      → has_byte 10 u ≡ false
      → Matches ps t
      → Matches (folders ∷ ps) (u ++ (b'/' ∷ t))

-- What package regexp documents for the expression of each piece, as a test.
abbrev run_of : ℕ → (Text → Bool) → Text → Bool
run_of without f [] = f []
run_of without f (x ∷ t) =
    let rest = run_of without f t in f (x ∷ t) || (not (x == without) && rest)

abbrev after_folders : (Text → Bool) → Text → Bool
after_folders f [] = false
after_folders f (x ∷ t) =
    let rest = after_folders f t in (x == b'/') && f t || (not (x == 10) && rest)

abbrev char_then : (ℕ → Bool) → (Text → Bool) → Text → Bool
char_then ok? f [] = false
char_then ok? f (x ∷ t) = ok? x && f t

unfoldable pub accepts : List Piece → Text → Bool
accepts [] t = is_nil t
accepts (literal c ∷ ps) t = char_then (λ x. x == c) (accepts ps) t
accepts (any_char ∷ ps) t = char_then (λ x. not (x == b'/')) (accepts ps) t
accepts (star ∷ ps) t = run_of b'/' (accepts ps) t
accepts (folders ∷ ps) t = accepts ps t || after_folders (accepts ps) t
accepts (anything ∷ ps) t = run_of 10 (accepts ps) t

-- A text without a byte, and then one that a test accepts.
data RunThen (without : ℕ) (f : Text → Bool) : Text → Type 0 where
  ran : (u t : Text) → has_byte without u ≡ false → f t ≡ true → RunThen without f (u ++ t)

run_longer :
    (without : ℕ) (f : Text → Bool) (x : ℕ) (t : Text)
    → (x == without) ≡ false
    → RunThen without f t
    → RunThen without f (x ∷ t)
unfolding has_byte
run_longer without f x _ e (ran u t h k) = ran (x ∷ u) t (rw e h) k

run_of-RunThen :
    (without : ℕ) (f : Text → Bool) (t : Text) → run_of without f t ≡ true → RunThen without f t
unfolding has_byte
run_of-RunThen without f [] h = ran [] [] refl h
run_of-RunThen without f (x ∷ t) h = elim (Bool-cases (f (x ∷ t))) [
  | inl e ↦ ran [] (x ∷ t) refl e
  | inr e ↦ elim (Bool-cases (x == without)) [
    | inl k ↦ absurd (ground arith)
    | inr k ↦ run_longer without f x t k (run_of-RunThen without f t (ground arith))
  ]
]

run_of-here : (without : ℕ) (f : Text → Bool) (t : Text) → f t ≡ true → run_of without f t ≡ true
run_of-here without f [] h = h
run_of-here without f (x ∷ t) h = rw h refl

run_of-append :
    (without : ℕ) (f : Text → Bool) (u t : Text)
    → has_byte without u ≡ false
    → f t ≡ true
    → run_of without f (u ++ t) ≡ true
unfolding has_byte
run_of-append without f [] t h k = run_of-here without f t k
run_of-append without f (x ∷ u) t h k = ground (arith, run_of-append without f u t)

-- Folders, each with its slash, and then a text that a test accepts.
data FoldersThen (f : Text → Bool) : Text → Type 0 where
  climbed : (u t : Text) → has_byte 10 u ≡ false → f t ≡ true → FoldersThen f (u ++ (b'/' ∷ t))

folders_longer :
    (f : Text → Bool) (x : ℕ) (t : Text)
    → (x == 10) ≡ false
    → FoldersThen f t
    → FoldersThen f (x ∷ t)
unfolding has_byte
folders_longer f x _ e (climbed u t h k) = climbed (x ∷ u) t (rw e h) k

after_folders-FoldersThen :
    (f : Text → Bool) (t : Text) → after_folders f t ≡ true → FoldersThen f t
unfolding has_byte
after_folders-FoldersThen f [] h = absurd cc
after_folders-FoldersThen f (x ∷ t) h = elim (Bool-cases ((x == b'/') && f t)) [
  | inl e ↦
      subst (λ y. FoldersThen f (y ∷ t)) (sym (eq_of_== x b'/' (ground arith)))
        (climbed [] t refl (ground arith))
  | inr e ↦ elim (Bool-cases (x == 10)) [
    | inl k ↦ absurd (ground arith)
    | inr k ↦ folders_longer f x t k (after_folders-FoldersThen f t (ground arith))
  ]
]

after_folders-append :
    (f : Text → Bool) (u t : Text)
    → has_byte 10 u ≡ false
    → f t ≡ true
    → after_folders f (u ++ (b'/' ∷ t)) ≡ true
unfolding has_byte ℕ_discrete
after_folders-append f [] t h k = rw k refl
after_folders-append f (x ∷ u) t h k = ground (arith, after_folders-append f u t)

-- The test is the meaning.
star-Matches :
    (ps : List Piece) (t : Text)
    → ((s : Text) → accepts ps s ≡ true → Matches ps s)
    → RunThen b'/' (accepts ps) t
    → Matches (star ∷ ps) t
star-Matches ps _ rest (ran u t h k) = within u ps t h (rest t k)

anything-Matches :
    (ps : List Piece) (t : Text)
    → ((s : Text) → accepts ps s ≡ true → Matches ps s)
    → RunThen 10 (accepts ps) t
    → Matches (anything ∷ ps) t
anything-Matches ps _ rest (ran u t h k) = across u ps t h (rest t k)

folders-Matches :
    (ps : List Piece) (t : Text)
    → ((s : Text) → accepts ps s ≡ true → Matches ps s)
    → FoldersThen (accepts ps) t
    → Matches (folders ∷ ps) t
folders-Matches ps _ rest (climbed u t h k) = deeper u ps t h (rest t k)

accepts-Matches : (ps : List Piece) (t : Text) → accepts ps t ≡ true → Matches ps t
unfolding accepts
accepts-Matches [] [] h = end
accepts-Matches [] (x ∷ t) h = absurd cc
accepts-Matches (literal c ∷ ps) [] h = absurd cc
accepts-Matches (literal c ∷ ps) (x ∷ t) h =
    subst (λ y. Matches (literal c ∷ ps) (y ∷ t)) (sym (eq_of_== x c (ground arith)))
      (as_is c ps t (accepts-Matches ps t (ground arith)))
accepts-Matches (any_char ∷ ps) [] h = absurd cc
accepts-Matches (any_char ∷ ps) (x ∷ t) h =
    one x ps t (ground arith) (accepts-Matches ps t (ground arith))
accepts-Matches (star ∷ ps) t h =
    star-Matches ps t (accepts-Matches ps) (run_of-RunThen b'/' (accepts ps) t h)
accepts-Matches (anything ∷ ps) t h =
    anything-Matches ps t (accepts-Matches ps) (run_of-RunThen 10 (accepts ps) t h)
accepts-Matches (folders ∷ ps) t h = elim (Bool-cases (accepts ps t)) [
  | inl e ↦ at_root ps t (accepts-Matches ps t e)
  | inr e ↦
      folders-Matches ps t (accepts-Matches ps)
        (after_folders-FoldersThen (accepts ps) t (ground arith))
]

Matches-accepts : (ps : List Piece) (t : Text) → Matches ps t → accepts ps t ≡ true
unfolding accepts
Matches-accepts _ _ end = refl
Matches-accepts _ _ (as_is c ps t m) = rw (==_of_eq c c refl) (Matches-accepts ps t m)
Matches-accepts _ _ (one x ps t h m) = rw h (Matches-accepts ps t m)
Matches-accepts _ _ (within u ps t h m) =
    run_of-append b'/' (accepts ps) u t h (Matches-accepts ps t m)
Matches-accepts _ _ (across u ps t h m) =
    run_of-append 10 (accepts ps) u t h (Matches-accepts ps t m)
Matches-accepts _ _ (at_root ps t m) = rw (Matches-accepts ps t m) refl
Matches-accepts _ _ (deeper u ps t h m) =
    let k = after_folders-append (accepts ps) u t h (Matches-accepts ps t m) in ground arith

unfoldable pub is_ascii : Text → Bool
is_ascii [] = true
is_ascii (c ∷ t) = ltb c 128 && is_ascii t

-- What is asked of a glob: the whole path, or its last element for a glob without a slash.
abbrev pub asked : List Piece → Text → Text
asked ps rel = if has_byte b'/' (print ps) then rel else base rel

-- A compiled glob, and its answer on a path.
pub record IsMatcherOf (compile_regexp : Text → Result (Text → Bool)) (ps : List Piece) (rel : Text)
    : Type 0 where
  matcher : GlobMatcher
  compiled : compile compile_regexp (print ps) ≡ ok matcher
  answer : match_glob matcher rel ≡ true ↔ Matches ps (asked ps rel)

-- A glob without brackets, in normal form, compiles, and its matcher says yes on a path exactly when the
-- glob matches the path, or its last element for a glob without a slash, where the regular expression that
-- is written for it compiles and does on ASCII texts what package regexp documents, and the text in
-- question is ASCII.
pub compile-Matches :
    (compile_regexp : Text → Result (Text → Bool)) (ps : List Piece) (re : Text → Bool)
    → print ps ≢ []
    → normalize (print ps) ≡ print ps
    → IsGlob ps
    → compile_regexp (anchored ps) ≡ ok re
    → ((t : Text) → is_ascii t ≡ true → re t ≡ accepts ps t)
    → (rel : Text) → is_ascii (asked ps rel) ≡ true
    → IsMatcherOf compile_regexp ps rel
unfolding compile match_glob subject
compile-Matches compile_regexp ps re full normal glob known documented rel ascii = record {
  matcher = record { raw = print ps; has_slash = has_byte b'/' (print ps); re = re };
  compiled = rw (normal, ==_of_ne (print ps) [] full, glob_to_regex-print ps glob, known) refl;
  answer = (
    λ h. accepts-Matches ps (asked ps rel) (sym (documented (asked ps rel) ascii) ∙ h),
    λ m. documented (asked ps rel) ascii ∙ Matches-accepts ps (asked ps rel) m,
  );
}
