-- ===== src/Backend/Paths.antt =====
-- internal/backend/backend.go: `cleanRemote`, `full`, `parseTargetRemote` and `Open`.
pub mod Proper
pub mod Within
use mathlib.Core.List.{reverse}
use yggsync.Prelude.{
  ℕ, Bool, true, false, ◌||◌, List, [], ◌∷◌, ◌++◌, map, Text, codes, Option, none, some, ◌==◌,
  text_eq, nat_eq, if◌then◌else◌,
}
use yggsync.Prelude.Strings.{split_on, join_on}
use yggsync.Prelude.Results.{Error, failed, Result, ok, err}
use yggsync.Config.{Target, Config, find_target}
use yggsync.Config.Runtime.{Platform, expand_path}

abbrev slash : ℕ → ℕ
slash c = if c == 92 then b'/' else c

-- `strings.ReplaceAll(p, "\\", "/")`
unfoldable pub slashed : Text → Text
slashed p = map slash p

-- `strings.TrimPrefix(p, "/")`
abbrev pub trim_slash : Text → Text
trim_slash [] = []
trim_slash (c ∷ p) = if c == b'/' then p else c ∷ p

abbrev pub is_rooted : Text → Bool
is_rooted [] = false
is_rooted (c ∷ p) = c == b'/'

-- The effect of `..`: a rooted path stays at its root, another may climb.
abbrev pub up : Bool → List Text → List Text
up true [] = []
up false [] = codes ".." ∷ []
up true (p ∷ ps) = ps
up false (p ∷ ps) = if p == codes ".." then codes ".." ∷ p ∷ ps else ps

-- One element of a path, onto those before it, the last one first.
unfoldable pub push : Bool → List Text → Text → List Text
push rooted before p =
    if (p == []) || (p == codes ".")
    then before
    else if p == codes ".."
    then up rooted before
    else p ∷ before

unfoldable pub push_all : Bool → List Text → List Text → List Text
unfolding push
push_all rooted before [] = before
push_all rooted before (p ∷ ps) = push_all rooted (push rooted before p) ps

abbrev pub or_dot : Text → Text
or_dot t = if t == [] then codes "." else t

-- `path.Clean`
unfoldable pub clean : Text → Text
unfolding push_all split_on join_on
clean p =
    let parts = reverse (push_all (is_rooted p) [] (split_on b'/' p)) in
    if is_rooted p then b'/' ∷ join_on b'/' parts else or_dot (join_on b'/' parts)

-- `path.Join` of two elements.
unfoldable pub join_path : Text → Text → Text
unfolding clean
join_path a b =
    if a == []
    then if b == [] then [] else clean b
    else if b == []
    then clean a
    else clean (a ++ (b'/' ∷ b))

-- A path up to its last slash, that one included.
abbrev before_last : Text → Text
before_last [] = []
before_last (c ∷ t) =
    let rest = before_last t in if rest == [] then if c == b'/' then c ∷ [] else [] else c ∷ rest

-- `path.Dir`
unfoldable pub dir : Text → Text
unfolding clean
dir p = clean (before_last p)

unfoldable pub clean_remote : Text → Text
unfolding slashed clean
clean_remote rel = or_dot (trim_slash (clean (b'/' ∷ trim_slash (slashed rel))))

-- `full`, with the share's base.
unfoldable pub full : Text → Text → Text
unfolding clean_remote join_path
full base rel =
    let r = clean_remote rel in
    if (base == []) || (base == codes ".")
    then r
    else if (r == codes ".") || (r == [])
    then base
    else clean_remote (join_path base r)

-- What stands before and after the first colon.
unfoldable pub cut_colon : Text → Option (Text × Text)
cut_colon [] = none
cut_colon (c ∷ t) =
    let rest = cut_colon t in
    if c == b':'
    then some ([], t)
    else elim rest [ none ↦ none | some (before, after) ↦ some (c ∷ before, after) ]

abbrev known_target : List Target → Text → Text → Option (Target × Text)
known_target targets name rel = elim (find_target name targets) [
  | none ↦ none
  | some t ↦ some (t, trim_slash rel)
]

-- `parseTargetRemote`, with the target that its caller looks up again.
unfoldable pub parse_target_remote : List Target → Text → Option (Target × Text)
unfolding cut_colon find_target
parse_target_remote targets remote = elim (cut_colon remote) [
  | none ↦ none
  | some (name, rel) ↦ if name == [] then none else known_target targets name rel
]

-- The file system that a job's path stands for: a local root, or a base on a target's share.
pub data Location : Type 0 where
  local_root : Text → Location
  smb_base : Target → Text → Location

module _ {Temp : Type 0} (platform : Platform Temp) (config : Config Temp) where
  abbrev at_target : Target → Text → Result Location
  at_target t rel =
      if t.type == codes "smb"
      then ok (smb_base t (clean_remote (join_path t.base_path rel)))
      else if t.type == codes "local"
      then ok (local_root (platform.path_join (expand_path platform t.path) rel))
      else err (failed (codes "unsupported target type"))

  -- `Open`, up to the connection of a share.
  unfoldable pub open_location : Text → Result Location
  unfolding parse_target_remote clean_remote join_path expand_path
  open_location remote = elim (parse_target_remote config.targets remote) [
    | none ↦ ok (local_root (expand_path platform remote))
    | some (t, rel) ↦ at_target t rel
  ]
