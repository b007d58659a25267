-- ===== src/Lib.antt =====
-- yggsync: synchronisation of a vault, and of folders, between a client and a hub (cmd/yggsync
-- and internal/*), as definitions that run, with theorems about them.
--
-- The program. A configuration (internal/config) names jobs. A worktree job
-- (internal/runner/worktree.go) scans both replicas through one interface (internal/backend),
-- loads the ledger that the hub keeps (internal/ledger), decides each path from the two hashes
-- and the ledger's, merges texts that were edited on both sides (internal/merge), and saves the
-- ledger. Copy, sync and retained_copy jobs (internal/runner/runner.go) compare sizes and times
-- and keep no ledger. A filter (internal/filter) says which paths of a job count. The command
-- line (cmd/yggsync) reads the configuration and the profile of the device, asks the gate
-- (internal/gate) whether to run now, chooses the jobs and has the runner run them, under a lock of
-- the process. internal/termuxjobs writes the scripts that start scheduled runs.
--
-- The files.
--   Prelude        equality tests, lists, maps as association lists, sorted lists and sets of strings,
--                  signed integers, strings as package strings treats them, the parsing of package
--                  flag, and actions: functions from a state to a result and a state, where a
--                  failing action may have changed the state before it failed.
--   Merge          internal/merge/merge.go. Merge is `Merge`; Merge/Lines `splitLines` and `equal`;
--                  Merge/Lcs `matchIndex`, the table by rows and the walk through it; Merge/Chunks
--                  `diff3Chunks`, `nextSyncPoint` and `resolveChunk`. Below them the laws.
--   Backend        internal/backend/backend.go: `Entry`, and `FS` as a record of operations on a
--                  state (OpenReader with io.ReadAll is `read`; a reader that fails has `delivered`
--                  a part), with the laws that clients rely on. Paths has `cleanRemote`, `full`,
--                  `parseTargetRemote` and `Open`; Sessions `openSMB` and `Close`; Shares `smbFS`;
--                  Roots `localFS`; Memory an instance in memory, for runs.
--   Ledger         internal/ledger/ledger.go: the records; Paths the names of files; Storage `Load` and
--                  `Save`; Blobs the content store; Collection `GCBlobs`; Lock `AcquireLock`.
--   Worktree       internal/runner/worktree.go: State the reconciler's fields, what a run changes apart
--                  from what it keeps; Operations its primitive operations; Decide `decide`,
--                  `decideConverged` and `resolveDivergence`, with the laws below it; Plan the
--                  pre-pass against mass deletions; Reconcile the loop; Run the scans and
--                  `runWorktree`, with Run/Report what it writes of conflicts.
--   Copying        internal/runner/runner.go: the steps of the copying jobs, with `runCopy` after its
--                  scans as `mirror`; Scan the scans and `runCopy`; Candidates the choice of files by
--                  age and number; Retained `runRetainedCopy`; Missing what becomes of a source that
--                  is not there.
--   Jobs           internal/runner/runner.go: `RunJob` and `RunJobs`; Jobs/Opening `openJobFS` with
--                  the deferred calls of `Close`; Jobs/Runner `New` and each job on its open file
--                  systems; Jobs/Lock `acquireLock`.
--   Filter         internal/filter/filter.go: `New`, `Match`, `compile`, `normalize`, `globToRegex`.
--   Config         internal/config/config.go: the records, lookups, and `fillDefaults`; Config/Runtime
--                  loading, device profiles and the expansion of paths.
--   Gate           internal/gate/gate.go: `Policy.WithDefaults`, `Decide` and `Check`; the temperatures
--                  are a parameter, for Go's float64. Gate/Phone has `readBattery` and `Notify`.
--   Command        cmd/yggsync/main.go: the arguments and the names of jobs; Command/Main `main` after
--                  the flags; Command/Arguments the flags; Command/Invocation the process from its
--                  arguments to its exit status; Command/Program the same on the runner of Jobs.
--   TermuxJobs     internal/termuxjobs/jobs.go: `InstallJobs` after its flags, the scripts as lists of
--                  words, and `register`; TermuxJobs/Arguments the flags.
--   Tests          runs on concrete inputs, and the theorems there.
--
-- What stands for Go's types. A string or a content is its list of bytes; a map an association
-- list, where a nil map is the empty one; a time the nanoseconds since the year 1, in UTC; an int
-- or int64 a signed integer, since generations, sizes and seconds stay far from 2^63, but for the
-- duration of a retention, which wraps. An error is one of the kinds that the code tells apart,
-- or a message, and messages are shorter than the code's. Logging is left out. Entries carry
-- permission bits only. A walk gives its entries first, and the callbacks then run on them in
-- order: where one returns an error, `stopped` of the file system says what the walk returns.
--
-- Parameters. A file system (its operations, with laws where a theorem needs them: a successful
-- write, removal or rename is what a later read sees, a failing call touches no other file than
-- its own: a store of files, where no two paths name one file, which Memory shows to exist, and
-- which is proved neither of `localFS` nor of `smbFS`); the JSON of a ledger and of a lock, with
-- the hypothesis that a value reads back where a theorem needs it; SHA-256 in hexadecimal, as a
-- function that never gives the empty string and does not collide on the two contents at hand;
-- the formats of time stamps and of numbers; the filter's `Match`, for the jobs; the wall clock;
-- the calls of a connection and of a share of package go-smb2, and those of os and path/filepath,
-- each a record; regexp.Compile, with the hypothesis that the expression of a glob does what
-- package regexp documents; filepath.Match; the TOML parser, the environment and the user's home;
-- the programs of the phone, with the JSON of its battery; strconv.ParseInt; the calls on the
-- lock's file; the texts of messages; and how a file system is opened, closed and found in the
-- state of a run. A shell passes on the words of a script: a bare word in its parts between
-- blanks, where it has no other character that a shell treats, and a quoted one as it is, where
-- it has no quote. path.Join is given clean arguments, as the code's are. The two replicas are
-- different stores. Types of jobs and targets in a configuration are ASCII.
--
-- Bounds. Three loops have no structural measure. That of `diff3Chunks` runs on fuel, twice the
-- lines of the base and two, and the merge is proved to return a result, so the fuel is enough.
-- That of `normalize` runs on the length of the path, and is proved to end before. `walkDir` runs
-- on fuel for the depth of folders; its theorem gives a fuel that is enough for a tree. The table
-- of `matchIndex` is filled by rows.
--
-- Not modelled. The cancellation of a run; the notification of conflicts; printing. A panic of
-- `Merge` would be `none`. White space in names and patterns is ASCII. Which of two files with one
-- time comes first under a keep_latest rule is open in the code.
pub mod Prelude
pub mod Backend
pub mod Ledger
pub mod Worktree
pub mod Merge
pub mod Config
pub mod Filter
pub mod Gate
pub mod Copying
pub mod Jobs
pub mod Command
pub mod TermuxJobs
mod Tests
