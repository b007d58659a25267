-- ===== src/Command/Scripted.antt =====
-- cmd/yggsync/main.go: how the arguments in the scripts of internal/termuxjobs/jobs.go are parsed.
use yggsync.Prelude.{
  ℕ, Bool, true, leb, ◌||◌, ◌&&◌, ◌==◌, nat_eq, ap, arith, ◌≡◌, ◌≢◌, refl, ◌∙◌, false, List, [],
  ◌∷◌, Text, codes, text_dec, ℕ_discrete, text_eq, ==_of_ne,
}
use yggsync.Prelude.Strings.{onto_first, has_prefix, trim_space}
use yggsync.Prelude.FlagSet.{parse_flags}
use yggsync.Prelude.Results.{ok}
use yggsync.Config.{Config}
use yggsync.Config.Runtime.{Platform}
use yggsync.Gate.{Temperatures}
use yggsync.Gate.Phone.{Phone}
use yggsync.Jobs.{Handlers, ProcessLock}
use yggsync.TermuxJobs.{Tools, is_blank, fields, arguments, obsidian_words, bulk_words}
use yggsync.Command.{jobs, split_args, subcommand, trimmed}
use yggsync.Command.Main.{Flags}
use yggsync.Command.Arguments.{main_flags, default_flags}
use yggsync.Command.Arguments.Printed.{
  value_step, parse_flags-plain, reads_config, reads_runtime, reads_profile, reads_reason,
}
use yggsync.Command.Invocation.{Formats, Ended, with_flags, invoke}

-- The settings that a script gives.
abbrev pub scripted : Text → Text → Text → Flags → Flags
scripted config runtime profile f = record f {
  config = config;
  runtime = runtime;
  profile = profile;
  reason = codes "scheduled";
}

parse_flags-bulk :
    (config runtime : Text) (f : Flags)
    → parse_flags main_flags
        (codes "-config"
          ∷ config
          ∷ codes "-runtime"
          ∷ runtime
          ∷ codes "-profile"
          ∷ codes "bulk"
          ∷ codes "-reason"
          ∷ codes "scheduled"
          ∷ [])
        f
      ≡ ok (scripted config runtime (codes "bulk") f, [])
parse_flags-bulk config runtime f =
    value_step _ _ reads_config config _ _
    ∙ value_step _ _ reads_runtime runtime _ _
    ∙ value_step _ _ reads_profile (codes "bulk") _ _
    ∙ value_step _ _ reads_reason (codes "scheduled") _ _
    ∙ parse_flags-plain [] _ tt

parse_flags-obsidian :
    (config runtime : Text) (f : Flags)
    → parse_flags main_flags
        (codes "-config"
          ∷ config
          ∷ codes "-runtime"
          ∷ runtime
          ∷ codes "-reason"
          ∷ codes "scheduled"
          ∷ [])
        f
      ≡ ok (scripted config runtime f.profile f, [])
parse_flags-obsidian config runtime f =
    value_step _ _ reads_config config _ _
    ∙ value_step _ _ reads_runtime runtime _ _
    ∙ value_step _ _ reads_reason (codes "scheduled") _ _
    ∙ parse_flags-plain [] _ tt

-- A byte that a shell takes as it is anywhere in a word: a letter, a digit, or one of `%+,-./:@_`.
abbrev is_plain : ℕ → Bool
is_plain c =
    (leb 97 c && leb c 122)
    || ((leb 65 c && leb c 90) || ((leb 43 c && leb c 58) || (c == 95 || (c == 64 || c == 37))))

abbrev pub all_plain : Text → Bool
all_plain [] = true
all_plain (c ∷ t) = is_plain c && all_plain t

plain-not_blank : (c : ℕ) → is_plain c ≡ true → is_blank c ≡ false
plain-not_blank c h = ground arith

fields-plain : (t : Text) → t ≢ [] → all_plain t ≡ true → fields t ≡ t ∷ []
unfolding fields
fields-plain [] full h = absurd (full refl)
fields-plain (c ∷ []) full h = rw (plain-not_blank c (ground arith)) refl
fields-plain (c ∷ d ∷ t) full h =
    let first : is_plain c ≡ true = ground arith in
    let rest : all_plain (d ∷ t) ≡ true = ground arith in
    let next : is_plain d ≡ true = ground arith in
    let ih = fields-plain (d ∷ t) (λ e. cc) rest in
    rw (plain-not_blank c first, plain-not_blank d next)
      (ap (onto_first c) (rw (plain-not_blank d next) at ih))

-- A name that the command line takes for a job.
pub record IsJobName (name : Text) : Type 0 where
  pub full : name ≢ []
  pub tight : trim_space name ≡ name
  pub no_flag : has_prefix (codes "-") name ≡ false
  pub not_run : name ≢ codes "run"
  pub not_android : name ≢ codes "android"
  pub not_policy : name ≢ codes "policy"

split_args-bulk :
    (config runtime : Text)
    → split_args (arguments (bulk_words config runtime)) ≡ (
      codes "run" ∷ [],
      codes "-config"
          ∷ config
          ∷ codes "-runtime"
          ∷ runtime
          ∷ codes "-profile"
          ∷ codes "bulk"
          ∷ codes "-reason"
          ∷ codes "scheduled"
          ∷ [],
    )
unfolding split_args bulk_words fields has_prefix ℕ_discrete
split_args-bulk config runtime = refl

split_args-obsidian :
    (name config runtime : Text)
    → IsJobName name
    → all_plain name ≡ true
    → split_args (arguments (obsidian_words name config runtime)) ≡ (
      name ∷ [],
      codes "-config"
          ∷ config
          ∷ codes "-runtime"
          ∷ runtime
          ∷ codes "-reason"
          ∷ codes "scheduled"
          ∷ [],
    )
unfolding split_args obsidian_words fields has_prefix ℕ_discrete
split_args-obsidian name config runtime is plain =
    rw (fields-plain name is.full plain, is.no_flag) refl

subcommand-job : (name : Text) → IsJobName name → subcommand (name ∷ []) ≡ jobs (name ∷ [])
unfolding subcommand
subcommand-job name is =
    rw
      (
        ==_of_ne name (codes "run") is.not_run,
        ==_of_ne name (codes "android") is.not_android,
        ==_of_ne name (codes "policy") is.not_policy,
      )
      refl

subcommand-run : subcommand (codes "run" ∷ []) ≡ jobs []
unfolding subcommand text_dec ℕ_discrete
subcommand-run = refl

pub trimmed-job : (name : Text) → IsJobName name → trimmed (name ∷ []) ≡ name ∷ []
unfolding trimmed
trimmed-job name is = rw (is.tight, ==_of_ne name [] is.full) refl

module _ (T : Temperatures) {S : Type 0} (platform : Platform T.Temp) (phone : Phone T.Temp S)
    (tools : Tools S) (formats : Formats) (handlers : Flags → Config T.Temp → Handlers S)
    (lock : Config T.Temp → ProcessLock S) where
  abbrev pub invoked : List Text → S → Ended × S
  invoked = invoke T platform phone tools formats handlers lock

  pub invoke-bulk :
      (config runtime : Text) (s : S)
      → invoked (arguments (bulk_words config runtime)) s
        ≡ with_flags T platform phone tools formats handlers lock []
            (ok (scripted config runtime (codes "bulk") (default_flags platform), []))
            s
  unfolding invoke
  invoke-bulk config runtime s =
      rw
        (
          split_args-bulk config runtime,
          subcommand-run,
          parse_flags-bulk config runtime (default_flags platform),
        )
        refl

  pub invoke-obsidian :
      (name config runtime : Text) (s : S)
      → IsJobName name
      → all_plain name ≡ true
      → invoked (arguments (obsidian_words name config runtime)) s
        ≡ with_flags T platform phone tools formats handlers lock
            (name ∷ [])
            (ok (scripted config runtime [] (default_flags platform), []))
            s
  unfolding invoke default_flags
  invoke-obsidian name config runtime s is plain =
      rw
        (
          split_args-obsidian name config runtime is plain,
          subcommand-job name is,
          parse_flags-obsidian config runtime (default_flags platform),
        )
        refl
