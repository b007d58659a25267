-- ===== src/Backend/Paths/Proper.antt =====
-- internal/backend/backend.go, `cleanRemote`: the paths that it gives, and that it keeps them.
use mathlib.Core.List.{reverse, reverse-cons, reverse-reverse, reverse-append}
use yggsync.Prelude.{
  ℕ, ◌≡◌, ◌≢◌, refl, ap, sym, ◌∙◌, subst, Bool, true, false, ◌||◌, List, [], ◌∷◌, ◌++◌, Text, codes,
  ◌==◌, text_eq, nat_eq, ==_of_ne, ne_of_==, arith, Bool-cases, inl, inr, append-nil, append_assoc,
  ℕ_discrete, text_dec,
}
use yggsync.Prelude.Strings.{
  has_byte, onto_first, split_on, join_on, Separated, split_on-join_on, join_on-full,
}
use yggsync.Backend.Paths.{
  slashed, trim_slash, or_dot, is_rooted, up, push, push_all, clean, clean_remote, full,
}

-- An element of a path that names something: not empty, no dots, no slash of either kind.
pub record IsProper (p : Text) : Type 0 where
  pub there : p ≢ []
  pub not_dot : p ≢ codes "."
  pub not_up : p ≢ codes ".."
  pub whole : has_byte b'/' p ≡ false
  pub no_backslash : has_byte 92 p ≡ false

abbrev pub AllProper : List Text → Type 0
AllProper [] = Unit {0}
AllProper (p ∷ ps) = IsProper p × AllProper ps

pub AllProper-append : (ps qs : List Text) → AllProper ps → AllProper qs → AllProper (ps ++ qs)
AllProper-append [] qs h k = k
AllProper-append (p ∷ ps) qs (a, h) k = (a, AllProper-append ps qs h k)

AllProper-reverse : (ps : List Text) → AllProper ps → AllProper (reverse ps)
AllProper-reverse [] h = h
AllProper-reverse (p ∷ ps) (a, h) =
    subst AllProper (sym (reverse-append (p ∷ []) ps))
      (AllProper-append (reverse ps) (p ∷ []) (AllProper-reverse ps h) (a, tt))

-- An element that a split of a path without backslashes gives.
abbrev IsPart : Text → Type 0
IsPart p = (has_byte b'/' p ≡ false) × (has_byte 92 p ≡ false)

abbrev AllParts : List Text → Type 0
AllParts [] = Unit {0}
AllParts (p ∷ ps) = IsPart p × AllParts ps

AllParts-onto_first :
    (c : ℕ) (ps : List Text)
    → (c == b'/') ≡ false
    → (c == 92) ≡ false
    → AllParts ps
    → AllParts (onto_first c ps)
unfolding has_byte
AllParts-onto_first c [] h k a = ground arith
AllParts-onto_first c (p ∷ ps) h k ((x, y), rest) = ground arith

neither : (x y : Bool) → (x || y) ≡ false → (x ≡ false) × (y ≡ false)
neither x y h = ground arith

split_on-AllParts : (t : Text) → has_byte 92 t ≡ false → AllParts (split_on b'/' t)
unfolding split_on has_byte
split_on-AllParts [] h = ((refl, refl), tt)
split_on-AllParts (c ∷ t) h =
    let (c_free, rest) = neither (c == 92) (has_byte 92 t) h in
    elim (Bool-cases (c == b'/')) [
      | inl e ↦ rw e ((refl, refl), split_on-AllParts t rest)
      | inr e ↦ rw e (AllParts-onto_first c (split_on b'/' t) e c_free (split_on-AllParts t rest))
    ]

up-AllProper : (before : List Text) → AllProper before → AllProper (up true before)
up-AllProper [] h = h
up-AllProper (p ∷ ps) h = h.1

push-AllProper :
    (before : List Text) (p : Text) → AllProper before → IsPart p → AllProper (push true before p)
unfolding push
push-AllProper before p h k = elim (Bool-cases (p == [])) [
  | inl e ↦ rw e h
  | inr full ↦ elim (Bool-cases (p == codes ".")) [
    | inl e ↦ rw (full, e) h
    | inr dot ↦ elim (Bool-cases (p == codes "..")) [
      | inl e ↦ rw (full, dot, e) (up-AllProper before h)
      | inr dots ↦
          rw (full, dot, dots)
            (
              record {
                there = ne_of_== p [] full;
                not_dot = ne_of_== p (codes ".") dot;
                not_up = ne_of_== p (codes "..") dots;
                whole = k.0;
                no_backslash = k.1;
              },
              h,
            )
    ]
  ]
]

push_all-AllProper :
    (before ps : List Text) → AllProper before → AllParts ps → AllProper (push_all true before ps)
unfolding push_all
push_all-AllProper before [] h k = h
push_all-AllProper before (p ∷ ps) h (a, k) =
    push_all-AllProper (push true before p) ps (push-AllProper before p h a) k

-- Proper elements are kept as they are.
push_all-proper :
    (rooted : Bool) (before ps : List Text)
    → AllProper ps
    → push_all rooted before ps ≡ reverse ps ++ before
unfolding push_all push
push_all-proper rooted before [] h = refl
push_all-proper rooted before (p ∷ ps) (a, h) =
    rw
      (
        push,
        ==_of_ne p [] a.there,
        ==_of_ne p (codes ".") a.not_dot,
        ==_of_ne p (codes "..") a.not_up,
      )
      (push_all-proper rooted (p ∷ before) ps h
        ∙ sym (append_assoc (reverse ps) (p ∷ []) before)
        ∙ ap (λ z. z ++ before) (sym (reverse-cons p ps)))

-- What `cleanRemote` gives: the root, or proper elements.
pub data IsClean : Text → Type 0 where
  root : IsClean (codes ".")
  below : (p : Text) (ps : List Text) → AllProper (p ∷ ps) → IsClean (join_on b'/' (p ∷ ps))

slashed-no_backslash : (t : Text) → has_byte 92 (slashed t) ≡ false
unfolding slashed has_byte
slashed-no_backslash [] = refl
slashed-no_backslash (c ∷ t) = ground (arith, slashed-no_backslash t)

trim_slash-no_backslash : (t : Text) → has_byte 92 t ≡ false → has_byte 92 (trim_slash t) ≡ false
unfolding has_byte
trim_slash-no_backslash [] h = h
trim_slash-no_backslash (c ∷ t) h = ground arith

cleaned_root : or_dot (trim_slash (b'/' ∷ join_on b'/' [])) ≡ codes "."
unfolding join_on ℕ_discrete text_dec
cleaned_root = refl

or_dot-trim_slash : (t : Text) → t ≢ [] → or_dot (trim_slash (b'/' ∷ t)) ≡ t
unfolding ℕ_discrete
or_dot-trim_slash t full = rw (==_of_ne t [] full)

cleaned-IsClean :
    (ps : List Text) → AllProper ps → IsClean (or_dot (trim_slash (b'/' ∷ join_on b'/' ps)))
cleaned-IsClean [] h = subst IsClean (sym cleaned_root) root
cleaned-IsClean (p ∷ ps) h =
    subst IsClean
      (sym (or_dot-trim_slash (join_on b'/' (p ∷ ps)) (join_on-full b'/' p ps h.0.there)))
      (below p ps h)

pub clean_remote-IsClean : (rel : Text) → IsClean (clean_remote rel)
unfolding clean_remote clean split_on has_byte ℕ_discrete
clean_remote-IsClean rel =
    let parts = split_on b'/' (trim_slash (slashed rel)) in
    cleaned-IsClean (reverse (push_all true [] ([] ∷ parts))) (
      AllProper-reverse (push_all true [] ([] ∷ parts)) (
        push_all-AllProper [] ([] ∷ parts) tt (
          (refl, refl),
          split_on-AllParts (trim_slash (slashed rel))
              (trim_slash-no_backslash (slashed rel) (slashed-no_backslash rel)),
        )))

-- Joined again, proper elements are a path that no step of `cleanRemote` changes.
slashed-plain : (t : Text) → has_byte 92 t ≡ false → slashed t ≡ t
unfolding slashed has_byte
slashed-plain [] h = refl
slashed-plain (c ∷ t) h = ground (arith, slashed-plain t)

has_byte-append :
    (c : ℕ) (a b : Text) → has_byte c a ≡ false → has_byte c b ≡ false → has_byte c (a ++ b) ≡ false
unfolding has_byte
has_byte-append c [] b h k = k
has_byte-append c (x ∷ a) b h k = ground (arith, has_byte-append c a b)

join_on-no_backslash : (ps : List Text) → AllProper ps → has_byte 92 (join_on b'/' ps) ≡ false
unfolding join_on has_byte ℕ_discrete
join_on-no_backslash [] h = refl
join_on-no_backslash (p ∷ []) h = h.0.no_backslash
join_on-no_backslash (p ∷ q ∷ ps) h =
    has_byte-append 92 p (b'/' ∷ join_on b'/' (q ∷ ps)) h.0.no_backslash
      (join_on-no_backslash (q ∷ ps) h.1)

-- A text of this form does not begin with a slash.
record IsRelative (t : Text) : Type 0 where
  untrimmed : trim_slash t ≡ t
  unrooted : is_rooted t ≡ false

append-IsRelative : (p t : Text) → p ≢ [] → has_byte b'/' p ≡ false → IsRelative (p ++ t)
unfolding has_byte
append-IsRelative [] t full h = absurd (full refl)
append-IsRelative (x ∷ p) t full h =
    let away = (neither (x == b'/') (has_byte b'/' p) h).0 in
    record { untrimmed = rw away refl; unrooted = away }

join_on-IsRelative :
    (p : Text) (ps : List Text) → AllProper (p ∷ ps) → IsRelative (join_on b'/' (p ∷ ps))
unfolding join_on
join_on-IsRelative p [] h =
    subst IsRelative (append-nil p) (append-IsRelative p [] h.0.there h.0.whole)
join_on-IsRelative p (q ∷ ps) h =
    append-IsRelative p (b'/' ∷ join_on b'/' (q ∷ ps)) h.0.there h.0.whole

AllProper-Separated : (ps : List Text) → AllProper ps → Separated b'/' ps
AllProper-Separated [] h = tt
AllProper-Separated (p ∷ ps) (a, h) = (a.whole, AllProper-Separated ps h)

pub proper_parts :
    (rooted : Bool) (p : Text) (ps : List Text)
    → AllProper (p ∷ ps)
    → reverse (push_all rooted [] (split_on b'/' (join_on b'/' (p ∷ ps)))) ≡ p ∷ ps
proper_parts rooted p ps h =
    rw
      (
        split_on-join_on b'/' p ps (AllProper-Separated (p ∷ ps) h),
        push_all-proper rooted [] (p ∷ ps) h,
        append-nil (reverse (p ∷ ps)),
      )
      (reverse-reverse (p ∷ ps))

pub clean-proper :
    (p : Text) (ps : List Text)
    → AllProper (p ∷ ps)
    → clean (join_on b'/' (p ∷ ps)) ≡ join_on b'/' (p ∷ ps)
unfolding clean
clean-proper p ps h =
    rw
      (
        IsRelative.unrooted (join_on-IsRelative p ps h),
        proper_parts false p ps h,
        ==_of_ne (join_on b'/' (p ∷ ps)) [] (join_on-full b'/' p ps h.0.there),
      )
      refl

pub clean_remote-proper :
    (p : Text) (ps : List Text)
    → AllProper (p ∷ ps)
    → clean_remote (join_on b'/' (p ∷ ps)) ≡ join_on b'/' (p ∷ ps)
unfolding clean_remote clean split_on push_all push ℕ_discrete text_dec
clean_remote-proper p ps h =
    rw
      (
        slashed-plain (join_on b'/' (p ∷ ps)) (join_on-no_backslash (p ∷ ps) h),
        IsRelative.untrimmed (join_on-IsRelative p ps h),
        proper_parts true p ps h,
      )
      (or_dot-trim_slash (join_on b'/' (p ∷ ps)) (join_on-full b'/' p ps h.0.there))
