-- ===== src/Ledger/Collection.antt =====
-- internal/ledger/ledger.go: `GCBlobs` and `walkBlobs`, and what they keep.
use yggsync.Prelude.{
  ◌≡◌, refl, ap, sym, ◌∙◌, Bool, true, false, not, ◌||◌, List, [], ◌∷◌, ◌++◌, Text,
}
use yggsync.Prelude.{
  ◌==◌, text_eq, nat_eq, if◌then◌else◌, ==_of_eq, eq_of_==, arith, Bool-cases, inl, inr,
}
use yggsync.Prelude.Dict.{Dict}
use yggsync.Prelude.Strings.{has_prefix}
use yggsync.Prelude.Sorting.{sort, member, member-sort}
use yggsync.Prelude.Results.{ok, err, Done, done, Action, resume, resume-keeps}
use yggsync.Backend.{Entry, Fs, IsLawful}
use yggsync.Ledger.{FileEntry, Ledger}
use yggsync.Ledger.Paths.{join, blobs_dir}

abbrev has_slash : Text → Bool
has_slash [] = false
has_slash (c ∷ t) = (c == b'/') || has_slash t

-- `path.Base` of a path that does not end in a slash.
unfoldable pub base_name : Text → Text
base_name [] = []
base_name (c ∷ t) = let rest = base_name t in if has_slash (c ∷ t) then rest else c ∷ t

-- The hashes of the live files.
unfoldable pub referenced : Dict Text FileEntry → List Text
referenced [] = []
referenced ((_, e) ∷ d) = e.hash ∷ referenced d

-- `walkBlobs`, with the callback of `GCBlobs`: the blobs that no live file has.
unfoldable pub stale_blobs : Text → List Text → List Entry → List Text
unfolding has_prefix base_name member
stale_blobs prefix live [] = []
stale_blobs prefix live (e ∷ es) =
    let rest = stale_blobs prefix live es in
    if e.is_dir
    then rest
    else if not (has_prefix prefix e.path)
    then rest
    else if member (base_name e.path) live
    then rest
    else e.path ∷ rest

module _ (F : Fs) where
  unfoldable pub remove_all : List Text → Action F.State (Unit {0})
  remove_all [] s = (done, s)
  remove_all (p ∷ ps) s = resume (F.remove p s) (λ _. remove_all ps)

  abbrev collect : List Text → Done → Action F.State (Unit {0})
  collect stale (ok _) s = remove_all (sort stale) s
  collect stale (err e) s = (err e, s)

  unfoldable pub gc_blobs : Text → Ledger → Action F.State (Unit {0})
  unfolding remove_all sort stale_blobs referenced join
  gc_blobs dir l s =
      let found = F.walk s in
      collect (stale_blobs (join dir blobs_dir ++ b'/' ∷ []) (referenced l.files) found.0) found.1 s

live_not_stale :
    (prefix : Text) (live : List Text) (es : List Entry) (q : Text)
    → member (base_name q) live ≡ true
    → member q (stale_blobs prefix live es) ≡ false
unfolding stale_blobs member
live_not_stale prefix live [] q h = refl
live_not_stale prefix live (e ∷ es) q h =
    let rest = live_not_stale prefix live es q h in
    elim (Bool-cases (q == e.path)) [
      | inl t ↦
          let live_path : member (base_name e.path) live ≡ true =
            ap (λ z. member (base_name z) live) (sym (eq_of_== q e.path t)) ∙ h in
          ground (arith, rest, live_path)
      | inr t ↦ ground (arith, rest)
    ]

elsewhere_not_stale :
    (prefix : Text) (live : List Text) (es : List Entry) (q : Text)
    → has_prefix prefix q ≡ false
    → member q (stale_blobs prefix live es) ≡ false
unfolding stale_blobs member
elsewhere_not_stale prefix live [] q h = refl
elsewhere_not_stale prefix live (e ∷ es) q h =
    let rest = elsewhere_not_stale prefix live es q h in
    elim (Bool-cases (q == e.path)) [
      | inl t ↦
          let away : has_prefix prefix e.path ≡ false =
            ap (has_prefix prefix) (sym (eq_of_== q e.path t)) ∙ h in
          ground (arith, rest, away)
      | inr t ↦ ground (arith, rest)
    ]

module _ (F : Fs) (law : IsLawful F) where
  remove_all-keeps :
      (ps : List Text) (s : F.State) (q : Text)
      → member q ps ≡ false
      → F.read (remove_all F ps s).1 q ≡ F.read s q
  unfolding remove_all member
  remove_all-keeps [] s q h = refl
  remove_all-keeps (p ∷ ps) s q h =
      resume-keeps (λ z. F.read z q ≡ F.read s q) (F.remove p s) (λ _. remove_all F ps)
        (law.remove_frame p s q (λ e. ground (arith, ==_of_eq q p e)))
        (λ _ s2 same. remove_all-keeps ps s2 q (ground arith) ∙ same)

  -- Whether it succeeds or fails, the collection keeps every file whose name is a live file's hash.
  pub gc_blobs-keeps :
      (dir : Text) (l : Ledger) (s : F.State) (q : Text)
      → member (base_name q) (referenced l.files) ≡ true
      → F.read (gc_blobs F dir l s).1 q ≡ F.read s q
  unfolding gc_blobs
  gc_blobs-keeps dir l s q h =
      let stale = stale_blobs (join dir blobs_dir ++ b'/' ∷ []) (referenced l.files) (F.walk s).0 in
      elim (F.walk s).1 as (λ r. F.read (collect F stale r s).1 q ≡ F.read s q) [
        | ok _ ↦
            remove_all-keeps (sort stale) s q
              (member-sort q stale ∙ live_not_stale _ (referenced l.files) (F.walk s).0 q h)
        | err _ ↦ refl
      ]

  -- It keeps every file that is not below the folder of blobs.
  pub gc_blobs-elsewhere :
      (dir : Text) (l : Ledger) (s : F.State) (q : Text)
      → has_prefix (join dir blobs_dir ++ b'/' ∷ []) q ≡ false
      → F.read (gc_blobs F dir l s).1 q ≡ F.read s q
  unfolding gc_blobs
  gc_blobs-elsewhere dir l s q h =
      let stale = stale_blobs (join dir blobs_dir ++ b'/' ∷ []) (referenced l.files) (F.walk s).0 in
      elim (F.walk s).1 as (λ r. F.read (collect F stale r s).1 q ≡ F.read s q) [
        | ok _ ↦
            remove_all-keeps (sort stale) s q
              (member-sort q stale ∙ elsewhere_not_stale _ (referenced l.files) (F.walk s).0 q h)
        | err _ ↦ refl
      ]
