-- ===== src/Backend/Paths/Within.antt =====
-- internal/backend/backend.go, `full` and the paths of `walkDir`: no path leaves the share's base.

use yggsync.Prelude.{
  ◌≡◌, ◌≢◌, refl, ap, sym, ◌∙◌, subst, false, ◌||◌, List, [], ◌∷◌, ◌++◌, Text, codes, ◌==◌, text_eq,
  nat_eq, if◌then◌else◌, ==_of_ne, append_assoc, ℕ_discrete, text_dec,
}
use yggsync.Prelude.Strings.{split_on, join_on, join_on-full}
use yggsync.Backend.Paths.{push, push_all, clean, join_path, clean_remote, full}
use yggsync.Backend.Paths.Proper.{
  IsProper, AllProper, IsClean, root, below, AllProper-append, proper_parts, clean-proper,
  clean_remote-proper, clean_remote-IsClean,
}

-- The places under a base: all clean paths for the root of a share, the base itself, and proper
-- elements below it.
pub data IsWithin : Text → Text → Type 0 where
  anywhere : (t : Text) → IsClean t → IsWithin (codes ".") t
  same : (base : Text) → IsWithin base base
  inside :
      (base p : Text) (ps : List Text)
      → AllProper (p ∷ ps)
      → IsWithin base (base ++ (b'/' ∷ join_on b'/' (p ∷ ps)))

join_on-append :
    (p : Text) (ps : List Text) (q : Text) (qs : List Text)
    → join_on b'/' (p ∷ ps ++ q ∷ qs) ≡ join_on b'/' (p ∷ ps) ++ (b'/' ∷ join_on b'/' (q ∷ qs))
unfolding join_on
join_on-append p [] q qs = refl
join_on-append p (x ∷ ps) q qs =
    ap (λ z. p ++ (b'/' ∷ z)) (join_on-append x ps q qs)
    ∙ sym (append_assoc p (b'/' ∷ join_on b'/' (x ∷ ps)) (b'/' ∷ join_on b'/' (q ∷ qs)))

proper_not_dot :
    (p : Text) (ps : List Text) → AllProper (p ∷ ps) → join_on b'/' (p ∷ ps) ≢ codes "."
unfolding join_on
proper_not_dot p [] h = h.0.not_dot
proper_not_dot [] (q ∷ ps) h = absurd (h.0.there refl)
proper_not_dot (x ∷ []) (q ∷ ps) h = λ e. cc
proper_not_dot (x ∷ y ∷ p) (q ∷ ps) h = λ e. cc

join_path-full : (a b : Text) → a ≢ [] → b ≢ [] → join_path a b ≡ clean (a ++ (b'/' ∷ b))
unfolding join_path
join_path-full a b h k = rw (==_of_ne a [] h, ==_of_ne b [] k) refl

-- What `full` does with a base and a path that are not the root.
full-proper :
    (p : Text) (ps : List Text) (q : Text) (qs : List Text)
    → AllProper (p ∷ ps)
    → AllProper (q ∷ qs)
    → clean_remote (join_path (join_on b'/' (p ∷ ps)) (join_on b'/' (q ∷ qs)))
      ≡ join_on b'/' (p ∷ ps) ++ (b'/' ∷ join_on b'/' (q ∷ qs))
full-proper p ps q qs h k =
    let both = AllProper-append (p ∷ ps) (q ∷ qs) h k in
    ap clean_remote (
      join_path-full (join_on b'/' (p ∷ ps)) (join_on b'/' (q ∷ qs))
        (join_on-full b'/' p ps h.0.there) (join_on-full b'/' q qs k.0.there))
    ∙ ap (λ z. clean_remote (clean z)) (sym (join_on-append p ps q qs))
    ∙ ap clean_remote (clean-proper p (ps ++ q ∷ qs) both)
    ∙ clean_remote-proper p (ps ++ q ∷ qs) both
    ∙ join_on-append p ps q qs

abbrev placed : Text → Text → Text
placed base r =
    if (base == []) || (base == codes ".")
    then r
    else if (r == codes ".") || (r == [])
    then base
    else clean_remote (join_path base r)

placed-IsWithin : (base r : Text) → IsClean base → IsClean r → IsWithin base (placed base r)
unfolding ℕ_discrete text_dec
placed-IsWithin _ r root k = anywhere r k
placed-IsWithin _ _ (below p ps h) root =
    rw
      (
        ==_of_ne (join_on b'/' (p ∷ ps)) [] (join_on-full b'/' p ps h.0.there),
        ==_of_ne (join_on b'/' (p ∷ ps)) (codes ".") (proper_not_dot p ps h),
      )
      (same (join_on b'/' (p ∷ ps)))
placed-IsWithin _ _ (below p ps h) (below q qs k) =
    rw
      (
        ==_of_ne (join_on b'/' (p ∷ ps)) [] (join_on-full b'/' p ps h.0.there),
        ==_of_ne (join_on b'/' (p ∷ ps)) (codes ".") (proper_not_dot p ps h),
        ==_of_ne (join_on b'/' (q ∷ qs)) [] (join_on-full b'/' q qs k.0.there),
        ==_of_ne (join_on b'/' (q ∷ qs)) (codes ".") (proper_not_dot q qs k),
        full-proper p ps q qs h k,
      )
      (inside (join_on b'/' (p ∷ ps)) q qs k)

-- With a base that is clean, every path that a client names leads to the base or, through proper elements,
-- below it; on the root of the share to a clean path.
pub full-IsWithin : (base rel : Text) → IsClean base → IsWithin base (full base rel)
unfolding full
full-IsWithin base rel h = placed-IsWithin base (clean_remote rel) h (clean_remote-IsClean rel)

-- A path below a folder, `.` being the root.
abbrev pub under : Text → Text → Text
under rel name = if rel == codes "." then name else rel ++ (b'/' ∷ name)

clean_dot : (name : Text) → IsProper name → clean (codes "." ++ (b'/' ∷ name)) ≡ name
unfolding clean split_on push_all push join_on ℕ_discrete text_dec
clean_dot name p = rw (proper_parts false name [] (p, tt), ==_of_ne name [] p.there) refl

pub join-under :
    (rel name : Text)
    → IsClean rel
    → IsProper name
    → clean_remote (join_path rel name) ≡ under rel name
unfolding join_on ℕ_discrete text_dec
join-under _ name root p =
    ap clean_remote (join_path-full (codes ".") name (λ e. cc) p.there ∙ clean_dot name p)
    ∙ clean_remote-proper name [] (p, tt)
join-under _ name (below q qs h) p =
    rw (==_of_ne (join_on b'/' (q ∷ qs)) (codes ".") (proper_not_dot q qs h))
      (full-proper q qs name [] h (p, tt))

pub under-IsClean : (rel name : Text) → IsClean rel → IsProper name → IsClean (under rel name)
unfolding join_on ℕ_discrete text_dec
under-IsClean _ name root p = below name [] (p, tt)
under-IsClean _ name (below q qs h) p =
    rw (==_of_ne (join_on b'/' (q ∷ qs)) (codes ".") (proper_not_dot q qs h)) (
      subst IsClean (join_on-append q qs name [])
        (below q (qs ++ name ∷ []) (AllProper-append (q ∷ qs) (name ∷ []) h (p, tt))))
