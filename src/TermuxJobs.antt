-- ===== src/TermuxJobs.antt =====
-- internal/termuxjobs/jobs.go: `InstallJobs`, given how the flags were parsed.
pub mod Arguments
use yggsync.Prelude.{
  ℕ, nat_eq, ◌||◌, Bool, true, false, ◌&&◌, List, [], ◌∷◌, ◌++◌, Text, codes, Option, none, some,
  ◌==◌, text_eq, if◌then◌else◌,
}
use yggsync.Prelude.Int.{ℤ, pos}
use yggsync.Prelude.Strings.{onto_first}
use yggsync.Prelude.Results.{failed, Result, ok, err, Action, ◌>>=◌, ◌>>◌, pure}
use yggsync.Config.{Job}
use yggsync.Config.Runtime.{Platform, load_config, expand_path}

abbrev obsidian_job_id : ℤ
obsidian_job_id = pos 101

abbrev bulk_job_id : ℤ
bulk_job_id = pos 102

-- The calls of packages os and os/exec. `run` runs a program with arguments.
pub record Tools (S : Type 0) : Type 0 where
  pub executable : Result Text
  pub look_path : Text → Option Text
  pub mkdir_all : Text → Action S (Unit {0})
  pub write_script : Text → Text → Action S (Unit {0})
  pub run : Text → List Text → Action S (Unit {0})

pub record Periods : Type 0 where
  pub obsidian_ms : ℤ
  pub bulk_ms : ℤ

-- The name of the first worktree job that has one.
unfoldable pub worktree_name : Text → List Job → Text
worktree_name name [] = name
worktree_name name (j ∷ js) =
    worktree_name (if (j.type == codes "worktree") && (name == []) then j.name else name) js

-- A word of a command: as it is, or in single quotes.
pub data Word : Type 0 where
  bare : Text → Word
  quoted : Text → Word

abbrev printed : Word → Text
printed (bare t) = t
printed (quoted t) = codes "'" ++ t ++ codes "'"

abbrev printed_words : List Word → Text
printed_words [] = []
printed_words (w ∷ ws) = codes " " ++ printed w ++ printed_words ws

-- A space or a tab.
abbrev pub is_blank : ℕ → Bool
is_blank c = c == 32 || c == 9

abbrev starts_blank : Text → Bool
starts_blank [] = true
starts_blank (c ∷ t) = is_blank c

-- The parts between blanks, none of them empty.
unfoldable pub fields : Text → List Text
fields [] = []
fields (c ∷ t) =
    let rest = fields t in
    if is_blank c then rest else if starts_blank t then (c ∷ []) ∷ rest else onto_first c rest

-- What a shell passes on: the fields of a bare word, where it has no character but blanks that the shell
-- treats, and the text of a quoted one, where it has no quote.
abbrev pub arguments : List Word → List Text
arguments [] = []
arguments (bare t ∷ ws) = fields t ++ arguments ws
arguments (quoted t ∷ ws) = t ∷ arguments ws

unfoldable pub obsidian_words : Text → Text → Text → List Word
obsidian_words name config runtime =
    bare name
    ∷ bare (codes "-config")
    ∷ quoted config
    ∷ bare (codes "-runtime")
    ∷ quoted runtime
    ∷ bare (codes "-reason")
    ∷ bare (codes "scheduled")
    ∷ []

unfoldable pub bulk_words : Text → Text → List Word
bulk_words config runtime =
    bare (codes "run")
    ∷ bare (codes "-config")
    ∷ quoted config
    ∷ bare (codes "-runtime")
    ∷ quoted runtime
    ∷ bare (codes "-profile")
    ∷ bare (codes "bulk")
    ∷ bare (codes "-reason")
    ∷ bare (codes "scheduled")
    ∷ []

-- A script: its interpreter, the program with its arguments, and the log.
unfoldable pub wrapper : Text → Text → List Word → Text → Text
wrapper bash self words log =
    codes "#!"
    ++ bash
    ++ 10 ∷ codes "exec "
    ++ printed (quoted self)
    ++ printed_words words
    ++ codes " >>"
    ++ printed (quoted log)
    ++ codes " 2>&1"
    ++ 10 ∷ []

-- `decimal` is `%d`.
module _ {Temp S : Type 0} (platform : Platform Temp) (tools : Tools S) (decimal : ℤ → Text) where
  unfoldable pub register_args : ℤ → Text → ℤ → Bool → List Text
  register_args id script period battery_not_low =
      (codes "--job-id"
        ∷ decimal id
        ∷ codes "--script"
        ∷ script
        ∷ codes "--period-ms"
        ∷ decimal period
        ∷ codes "--network"
        ∷ codes "unmetered"
        ∷ codes "--persisted"
        ∷ codes "true"
        ∷ [])
      ++ (if battery_not_low then codes "--battery-not-low" ∷ codes "true" ∷ [] else [])

  -- A scheduler that is not there is no failure.
  unfoldable pub register : ℤ → Text → ℤ → Bool → Action S (Unit {0})
  unfolding register_args
  register id script period battery_not_low =
      elim (tools.look_path (codes "termux-job-scheduler")) [
        | none ↦ pure tt
        | some scheduler ↦ tools.run scheduler (register_args id script period battery_not_low)
      ]

  abbrev state_dir : Text
  state_dir = expand_path platform (codes "~/.local/state/yggsync")

  abbrev jobs_dir : Text
  jobs_dir = platform.path_join state_dir (codes "jobs")

  abbrev install_obsidian : Text → Text → Text → Text → Text → Periods → Action S (Unit {0})
  install_obsidian bash self name config runtime periods =
      let script = platform.path_join jobs_dir (codes "run-obsidian.sh") in
      if name == []
      then pure tt
      else tools.write_script script (
          wrapper bash self (obsidian_words name config runtime)
            (platform.path_join state_dir (codes "obsidian.log")))
        >> register obsidian_job_id script periods.obsidian_ms false

  abbrev install_bulk : Text → Text → Text → Text → Periods → Action S (Unit {0})
  install_bulk bash self config runtime periods =
      let script = platform.path_join jobs_dir (codes "run-bulk.sh") in
      tools.write_script script (
        wrapper bash self (bulk_words config runtime)
          (platform.path_join state_dir (codes "bulk.log")))
      >> register bulk_job_id script periods.bulk_ms true

  abbrev found_bash : Option Text → Result Text
  found_bash none = err (failed (codes "bash not found"))
  found_bash (some bash) = ok bash

  abbrev read_only : {A : Type 0} → Result A → Action S A
  read_only a s = (a, s)

  unfoldable pub install_jobs : Text → Text → Periods → Action S (Unit {0})
  unfolding load_config worktree_name wrapper obsidian_words bulk_words register expand_path
  install_jobs config_path runtime periods = do
    config ← read_only (load_config platform config_path)
    self ← read_only tools.executable
    tools.mkdir_all jobs_dir
    bash ← read_only (found_bash (tools.look_path (codes "bash")))
    install_obsidian bash self (worktree_name [] config.jobs) config_path runtime periods
    install_bulk bash self config_path runtime periods
