-- ===== src/Prelude/FlagSet.antt =====
-- Go's package flag: `FlagSet.Parse`, for flags that set the fields of a record.
use Prim.Native.Nat.{ℕ}
use mathlib.Core.Path.{◌≡◌, refl}
use mathlib.Core.Bool.{Bool, true, false, ◌||◌}
use mathlib.Core.Option.{Option, none, some}
use mathlib.Core.List.{List, [], ◌∷◌}
use yggsync.Prelude.Equality.{Text, codes, nat_eq, text_eq, ◌==◌, if◌then◌else◌}
use yggsync.Prelude.Dict.{Dict, lookup}
use yggsync.Prelude.Results.{failed, Result, ok, err}

-- A Boolean flag needs no value; any other has one, after `=` or as the next argument.
pub data Flag (F : Type 0) : Type 0 where
  switch : (Bool → F → F) → Flag F
  setting : (Text → F → Option F) → Flag F

-- `strconv.ParseBool`
unfoldable pub parse_bool : Text → Option Bool
parse_bool t =
    if (t == codes "1")
      || ((t == codes "t")
          || ((t == codes "T")
              || ((t == codes "true") || ((t == codes "TRUE") || (t == codes "True")))))
    then some true
    else if (t == codes "0")
        || ((t == codes "f")
            || ((t == codes "F")
                || ((t == codes "false") || ((t == codes "FALSE") || (t == codes "False")))))
    then some false
    else none

abbrev before_name : ℕ → Text × Option Text → Text × Option Text
before_name c (name, value) = (c ∷ name, value)

-- The name of a flag, and the value after the first `=`.
unfoldable pub cut_value : Text → Text × Option Text
cut_value [] = ([], none)
cut_value (c ∷ t) = let rest = cut_value t in if c == b'=' then ([], some t) else before_name c rest

-- An argument that is no flag ends the parsing, and so does `--`.
pub data Argument : Type 0 where
  plain : Argument
  terminator : Argument
  malformed : Argument
  named : Text → Option Text → Argument

abbrev named_by : Text × Option Text → Argument
named_by (name, value) = named name value

abbrev flag_named : Text → Argument
flag_named [] = malformed
flag_named (c ∷ t) = if (c == b'-') || (c == b'=') then malformed else named_by (cut_value (c ∷ t))

abbrev after_dash : ℕ → Text → Argument
after_dash d [] = if d == b'-' then terminator else flag_named (d ∷ [])
after_dash d (c ∷ t) = if d == b'-' then flag_named (c ∷ t) else flag_named (d ∷ c ∷ t)

unfoldable pub argument : Text → Argument
unfolding cut_value
argument [] = plain
argument (c ∷ []) = plain
argument (c ∷ d ∷ t) = if c == b'-' then after_dash d t else plain

-- What one argument comes to: the end of the flags, an error, new settings, or a flag that takes the
-- next argument as its value.
pub data Reading (F : Type 0) : Type 0 where
  finished : Reading F
  passed : Reading F
  wrong : Text → Reading F
  given : F → Reading F
  wants : (Text → F → Option F) → Reading F

module _ {F : Type 0} (flags : Dict Text (Flag F)) where
  abbrev set_or : Text → Option F → Reading F
  set_or message none = wrong message
  set_or message (some f) = given f

  abbrev switched : (Bool → F → F) → F → Option Bool → Reading F
  switched set f none = wrong (codes "invalid boolean value")
  switched set f (some b) = given (set b f)

  abbrev use_flag : Option (Flag F) → Option Text → F → Reading F
  use_flag none value f = wrong (codes "flag provided but not defined")
  use_flag (some (switch set)) none f = given (set true f)
  use_flag (some (switch set)) (some v) f = switched set f (parse_bool v)
  use_flag (some (setting set)) none f = wants set
  use_flag (some (setting set)) (some v) f = set_or (codes "invalid value") (set v f)

  abbrev reading_of : Argument → F → Reading F
  reading_of plain f = finished
  reading_of terminator f = passed
  reading_of malformed f = wrong (codes "bad flag syntax")
  reading_of (named name value) f = use_flag (lookup name flags) value f

  -- `parseOne`, but for the value in the next argument.
  unfoldable pub read_one : Text → F → Reading F
  unfolding argument lookup parse_bool
  read_one a f = reading_of (argument a) f

  abbrev at_end : Text → F → Reading F → Result (F × List Text)
  at_end a f finished = ok (f, a ∷ [])
  at_end a f passed = ok (f, [])
  at_end a f (wrong e) = err (failed e)
  at_end a f (given g) = ok (g, [])
  at_end a f (wants set) = err (failed (codes "flag needs an argument"))

  abbrev with_value : Option F → (F → Result (F × List Text)) → Result (F × List Text)
  with_value none k = err (failed (codes "invalid value"))
  with_value (some f) k = k f

  abbrev before_more :
      Text
      → List Text
      → F
      → Text
      → Reading F
      → (F → Result (F × List Text))
      → (F → Result (F × List Text))
      → Result (F × List Text)
  before_more a rest f v finished next skip = ok (f, a ∷ v ∷ rest)
  before_more a rest f v passed next skip = ok (f, v ∷ rest)
  before_more a rest f v (wrong e) next skip = err (failed e)
  before_more a rest f v (given g) next skip = next g
  before_more a rest f v (wants set) next skip = with_value (set v f) skip

  -- `Parse`: the settings, and the arguments that are left.
  unfoldable pub parse_flags : List Text → F → Result (F × List Text)
  unfolding read_one
  parse_flags [] f = ok (f, [])
  parse_flags (a ∷ []) f = at_end a f (read_one a f)
  parse_flags (a ∷ v ∷ rest) f =
      before_more a rest f v (read_one a f) (parse_flags (v ∷ rest)) (parse_flags rest)

  -- An argument that sets something by itself.
  pub parse_flags-given :
      (a : Text) (rest : List Text) (f g : F)
      → read_one a f ≡ given g
      → parse_flags (a ∷ rest) f ≡ parse_flags rest g
  unfolding parse_flags
  parse_flags-given a [] f g h = rw h refl
  parse_flags-given a (v ∷ rest) f g h = rw h refl

  -- A flag with its value in the next argument.
  pub parse_flags-wants :
      (a v : Text) (rest : List Text) (f g : F) (set : Text → F → Option F)
      → read_one a f ≡ wants set
      → set v f ≡ some g
      → parse_flags (a ∷ v ∷ rest) f ≡ parse_flags rest g
  unfolding parse_flags
  parse_flags-wants a v rest f g set h k = rw (h, k) refl

  -- An argument that is no flag, and those after it.
  pub parse_flags-finished :
      (a : Text) (rest : List Text) (f : F)
      → argument a ≡ plain
      → parse_flags (a ∷ rest) f ≡ ok (f, a ∷ rest)
  unfolding parse_flags
  parse_flags-finished a [] f h = rw (read_one, h) refl
  parse_flags-finished a (v ∷ rest) f h = rw (read_one, h) refl
