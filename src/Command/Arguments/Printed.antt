-- ===== src/Command/Arguments/Printed.antt =====
-- cmd/yggsync/main.go: settings written out as arguments are read back.
use yggsync.Prelude.{
  ◌≡◌, refl, ◌∙◌, Bool, true, false, List, [], ◌∷◌, ◌++◌, Text, codes, some, text_dec, ℕ_discrete,
}
use yggsync.Prelude.Dict.{lookup}
use yggsync.Prelude.FlagSet.{
  given, wants, plain, argument, cut_value, parse_bool, read_one, parse_flags, parse_flags-given,
  parse_flags-wants, parse_flags-finished,
}
use yggsync.Prelude.Results.{ok}
use yggsync.Command.Main.{Flags}
use yggsync.Command.Arguments.{main_flags}

abbrev flag_is : Text → Bool → Text
flag_is name true = name ++ codes "=true"
flag_is name false = name ++ codes "=false"

-- The settings, each as a flag.
abbrev pub flag_args : Flags → List Text
flag_args f =
    codes "-config"
    ∷ f.config
    ∷ codes "-jobs"
    ∷ f.job_list
    ∷ flag_is (codes "-list") f.list
    ∷ flag_is (codes "-dry-run") f.dry_run
    ∷ codes "-worktree-op"
    ∷ f.worktree_op
    ∷ flag_is (codes "-allow-mass-delete") f.allow_mass_delete
    ∷ codes "-reason"
    ∷ f.reason
    ∷ codes "-runtime"
    ∷ f.runtime
    ∷ codes "-profile"
    ∷ f.profile
    ∷ flag_is (codes "-version") f.show_version
    ∷ []

abbrev Switches : Text → (Bool → Flags → Flags) → Type 0
Switches name set =
    (b : Bool) (f : Flags) → read_one main_flags (flag_is name b) f ≡ given (set b f)

abbrev Sets : Text → (Text → Flags → Flags) → Type 0
Sets name set = (f : Flags) → read_one main_flags name f ≡ wants (λ v g. some (set v g))

reads_list : Switches (codes "-list") (λ b f. record f { list = b })
unfolding read_one argument cut_value lookup parse_bool text_dec ℕ_discrete
reads_list true f = refl
reads_list false f = refl

reads_dry_run : Switches (codes "-dry-run") (λ b f. record f { dry_run = b })
unfolding read_one argument cut_value lookup parse_bool text_dec ℕ_discrete
reads_dry_run true f = refl
reads_dry_run false f = refl

reads_allow_mass_delete :
    Switches (codes "-allow-mass-delete") (λ b f. record f { allow_mass_delete = b })
unfolding read_one argument cut_value lookup parse_bool text_dec ℕ_discrete
reads_allow_mass_delete true f = refl
reads_allow_mass_delete false f = refl

reads_version : Switches (codes "-version") (λ b f. record f { show_version = b })
unfolding read_one argument cut_value lookup parse_bool text_dec ℕ_discrete
reads_version true f = refl
reads_version false f = refl

pub reads_config : Sets (codes "-config") (λ v f. record f { config = v })
unfolding read_one argument cut_value lookup text_dec ℕ_discrete
reads_config f = refl

reads_jobs : Sets (codes "-jobs") (λ v f. record f { job_list = v })
unfolding read_one argument cut_value lookup text_dec ℕ_discrete
reads_jobs f = refl

reads_worktree_op : Sets (codes "-worktree-op") (λ v f. record f { worktree_op = v })
unfolding read_one argument cut_value lookup text_dec ℕ_discrete
reads_worktree_op f = refl

pub reads_reason : Sets (codes "-reason") (λ v f. record f { reason = v })
unfolding read_one argument cut_value lookup text_dec ℕ_discrete
reads_reason f = refl

pub reads_runtime : Sets (codes "-runtime") (λ v f. record f { runtime = v })
unfolding read_one argument cut_value lookup text_dec ℕ_discrete
reads_runtime f = refl

pub reads_profile : Sets (codes "-profile") (λ v f. record f { profile = v })
unfolding read_one argument cut_value lookup text_dec ℕ_discrete
reads_profile f = refl

-- A flag that is read, and then the rest.
switch_step :
    (name : Text) (set : Bool → Flags → Flags) (reads : Switches name set) (b : Bool)
    (rest : List Text) (f : Flags)
    → parse_flags main_flags (flag_is name b ∷ rest) f ≡ parse_flags main_flags rest (set b f)
switch_step name set reads b rest f =
    parse_flags-given main_flags (flag_is name b) rest f (set b f) (reads b f)

pub value_step :
    (name : Text) (set : Text → Flags → Flags) (reads : Sets name set) (v : Text) (rest : List Text)
    (f : Flags)
    → parse_flags main_flags (name ∷ v ∷ rest) f ≡ parse_flags main_flags rest (set v f)
value_step name set reads v rest f =
    parse_flags-wants main_flags name v rest f (set v f) (λ w g. some (set w g)) (reads f) refl

-- Arguments that do not start with a flag.
abbrev pub StartsPlain : List Text → Type 0
StartsPlain [] = Unit {0}
StartsPlain (a ∷ rest) = argument a ≡ plain

pub parse_flags-plain :
    (rest : List Text) (f : Flags) → StartsPlain rest → parse_flags main_flags rest f ≡ ok (f, rest)
unfolding parse_flags
parse_flags-plain [] f h = refl
parse_flags-plain (a ∷ rest) f h = parse_flags-finished main_flags a rest f h

-- Any settings, written out as arguments, are read back whatever the settings before, and the
-- arguments after them, of which the first is no flag, are left.
pub parse_flags-flag_args :
    (f before : Flags) (rest : List Text)
    → StartsPlain rest
    → parse_flags main_flags (flag_args f ++ rest) before ≡ ok (f, rest)
parse_flags-flag_args f before rest h =
    value_step _ _ reads_config f.config _ _
    ∙ value_step _ _ reads_jobs f.job_list _ _
    ∙ switch_step (codes "-list") _ reads_list f.list _ _
    ∙ switch_step (codes "-dry-run") _ reads_dry_run f.dry_run _ _
    ∙ value_step _ _ reads_worktree_op f.worktree_op _ _
    ∙ switch_step (codes "-allow-mass-delete") _ reads_allow_mass_delete f.allow_mass_delete _ _
    ∙ value_step _ _ reads_reason f.reason _ _
    ∙ value_step _ _ reads_runtime f.runtime _ _
    ∙ value_step _ _ reads_profile f.profile _ _
    ∙ switch_step (codes "-version") _ reads_version f.show_version _ _
    ∙ parse_flags-plain rest f h
