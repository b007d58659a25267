-- ===== src/Worktree/Run/Report.antt =====
-- internal/runner/worktree.go, `writeConflictsReport` and the end of `runWorktree`, with
-- internal/runner/runner.go, `conflictError`.
use yggsync.Prelude.{ℕ, List, [], ◌∷◌, ◌++◌, Text, codes, if◌then◌else◌, ltb, length, take}
use yggsync.Prelude.Sorting.{sort}
use yggsync.Prelude.Results.{Error, failed}
use yggsync.Backend.{Time}

-- Two bytes between the elements of a list.
abbrev listed_with : Text → List Text → Text
listed_with sep [] = []
listed_with sep (p ∷ []) = p
listed_with sep (p ∷ q ∷ ps) = p ++ sep ++ listed_with sep (q ∷ ps)

abbrev pub newline : Text
newline = 10 ∷ []

abbrev report_lines : List Text → Text
report_lines [] = []
report_lines (p ∷ ps) = codes "- " ++ p ++ newline ++ report_lines ps

-- `decimal` is `%d`, and `rfc3339` the format of that name.
module _ (decimal : ℕ → Text) (rfc3339 : Time → Text) (job : Text) where
  unfoldable pub conflict_error : List Text → Error
  conflict_error conflicts =
      if ltb 8 (length conflicts)
      then failed (
          codes "job "
          ++ job
          ++ codes ": worktree conflicts on "
          ++ decimal (length conflicts)
          ++ codes " paths, first few: "
          ++ listed_with (codes ", ") (take 8 conflicts))
      else failed (
          codes "job "
          ++ job
          ++ codes ": worktree conflicts: "
          ++ listed_with (codes ", ") conflicts)

  unfoldable pub report_text : List Text → Time → Text
  unfolding sort
  report_text conflicts now =
      codes "# yggsync conflicts ("
      ++ job
      ++ codes ")"
      ++ newline
      ++ newline
      ++ codes "Run at "
      ++ rfc3339 now
      ++ codes ". The following paths could not be merged cleanly."
      ++ newline
      ++ codes "For each, the hub version is live and your version is kept beside it as "
      ++ codes "`<name>.mergefail.<timestamp>`. Resolve, then delete the sidecar."
      ++ newline
      ++ newline
      ++ report_lines (sort conflicts)
