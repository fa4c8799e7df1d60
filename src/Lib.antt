-- ===== src/Lib.antt =====
-- A model of the core of Plumbline, a security auditor for Linux hosts, and proofs about it.
--
-- A run collects facts, evaluates a catalog of checks on them, scopes and suppresses the findings,
-- scores them, and turns them into an exit code. The parts, and the files that model them:
--
--   internal/fact/fact.go             Fact: the facts and the errors of a run, by name; `Put`,
--                                     `PutError` and `Get`. Fact/Invariant: one answer for a name.
--   internal/collect                  Collect: `blame`, `mergeInto`, `recordCollectorError` and the
--                                     capabilities. Collect/Merge: the merged set. Collect/Runner:
--                                     what a collector of `Run` writes, and the concurrent runs.
--                                     Collect/Runner/Gaps, Collect/Runner/Ends: what a run leaves.
--                                     Collect/Registry: the collectors by ID and their order, from its
--                                     first counts (Counting) through a round (Releasing, Rounds) to
--                                     the loop (Order). Collect/Registry/Cycle: `Register` and
--                                     `findCycle`; Built: the registries that `Register` builds.
--   internal/collect/unit/unit.go,    Unit: a systemd unit, `List` and `Last` (Folds). Unit/Parse: the
--   internal/fact/unit.go and         parser. Unit/Read: one file behind its links. Unit/Assemble: the
--   internal/collect/textfile.go      unit with its drop-ins; Complete: what was seen; Order: what wins.
--   internal/collect/walker           Walker: the one walk of the filesystem. Walker/Mounts: the mount
--                                     table (Escapes, Table). Walker/Questions: interests and tallies,
--                                     with what they have after a list of offers (Rows, Counts,
--                                     Balances, Sorted). Walker/State: the state and its steps.
--                                     Walker/Traverse: `walkRoot`. Walker/Run: `Walk`.
--                                     Walker/Collector: the registry of questions and `Collect`.
--                                     Walker/Reach: what a walk is to see, without stack or budget.
--                                     Proofs: Steps, Ends, Books, Scan, Entries, Rounds, Sound, Whole,
--                                     Start, Report, Members, Covered, Closed, Complete, Asks,
--                                     Collector/Produced.
--   internal/fact/fs.go, fstally.go   Fact/Fs and Fact/Mounts: the facts of the walk.
--   and mounts.go
--   internal/remediate/engine.go      Remediate/Engine: the registry of fixes, `Generate` and
--   and sysctl.go                     `helpersFor`. Remediate/Shell: quoting; Words: a shell's reading.
--                                     Remediate/Fixes: the sysctl fixes. Remediate/Sysctl: `Merge`.
--   internal/system/system.go         Host: the interface through which collectors see the host.
--   internal/finding/finding.go       Finding, Finding/Fingerprint: a finding, weights, fingerprints.
--   internal/catalog/catalog.go       Catalog: `New`, `Evaluate`, `EvaluateOne`. Catalog/Evaluate: the
--                                     guarantees of one evaluation. Catalog/Build: of a catalog, by
--                                     Catalog/Holds: what `New` keeps.
--   internal/sanitize/sanitize.go     Sanitize: `clean`. Sanitize/Laws: its output.
--   internal/profile/profile.go and   Profile: `Parse`, `Includes` and `applyProfile`. Profile/Scope:
--   internal/cli/profile.go           what a scoped run reports.
--   internal/suppress/suppress.go     Suppress: `Parse` and `Apply`. Suppress/Valid: a parsed file.
--                                     Suppress/Apply: the findings. Suppress/Report: the rules.
--   internal/score/score.go           Score: `Compute`. Score/Laws: against exact sums.
--                                     Score/Percent: the range of the figures. Score/Scope: findings
--                                     out of a profile.
--   internal/diff/diff.go             Diff: `classify` and `Compare`. Diff/Classify, Diff/Compare.
--   internal/cli/exit.go, eval.go     Cli/Exit: the ladder of exit codes. Cli/Gate: `gateOn`, the
--   and pipeline.go                   levels of --fail-on and the counts. Cli/Gate/Laws.
--
-- Base holds what they share: lists, texts, maps and sorting. Go holds the parts of Go's standard
-- library that the code calls: SHA-256, hexadecimal, `strings.TrimSpace`, decimals, UTF-8, the `strings`
-- and `path` functions. A module
-- called Tests has runs at concrete inputs. A function of the source keeps its name in small letters;
-- the methods of a pointer that may be nil take an `Option`.
--
-- A string is the list of its bytes, and a map is an association list with each key once; where Go
-- ranges over a map in no set order the code sorts the keys first, and so does the model. Sorting is
-- insertion sort, which is stable, as `sort.SliceStable` is; where the code sorts strings by
-- `sort.Strings` equal elements cannot be told apart. Counters are natural numbers: they are bounded
-- by the number of findings, which is far below 2 ^ 63.
--
-- Parameters: the JSON decoders, `time.Parse`, `path.Match`, the verb %q, the type assertion of
-- `Get`, the values of facts, and float64 (Go/Float), an interface with the laws of IEEE 754 that the
-- proofs use. An instant is a natural number of nanoseconds. A check's `Eval` is a function to an
-- outcome or a panic. The host is a record of functions (Host): it is taken not to change while a
-- collector reads it. The clock and the context of a walk are a record of what they answer when they
-- are asked for the n-th time. `sort.Slice` of the walk sorts by paths, which no two entries of a
-- directory share.
--
-- Fuel: the digits of Go/Decimal get one unit more than the number, and the blocks of Go/Sha256 one
-- unit for each block of the padded message. The rounds of `Order` and the depth of `findCycle` get one
-- unit for each collector, and the rounds of `helpersFor` one unit more than there are helpers; that
-- these three are enough is among the results below. The loop of `walkRoot` gets one unit for each inode
-- of its budget: a round takes one directory off the stack, and each that is pushed was offered as an
-- inode. That no walk runs out of it is a result below. Links are followed as often as the code does.
--
-- A concurrent run of the collectors is any interleaving of their critical sections: the waits for
-- dependencies and for the slot of expensive collectors only exclude some of them. How a collector
-- ends is a value that the run takes.
--
-- Not modelled: the collectors and their parsers but for systemd units, the single checks, bundles, renderers, the fixes that are no sysctl fixes, the script around the
-- commands, and the commands of the program.
pub mod Base
pub mod Go
pub mod Finding
pub mod Score
pub mod Suppress
pub mod Diff
pub mod Fact
pub mod Cli
pub mod Collect
pub mod Sanitize
pub mod Profile
pub mod Catalog
pub mod Host
pub mod Remediate
pub mod Walker
pub mod Unit
