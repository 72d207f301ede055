-- ===== src/Lib.antt =====
-- Aurforge: a private build service for packages of the Arch User Repository and of local
-- directories. The operator imports a package (cmd/aurforge, internal/import.go); its files are
-- parsed (internal/package.go) and the package, its revision and a build job enter the database
-- (CreatePackage of internal/db.go). The scheduler imports new revisions the same way, a worker
-- claims jobs (ClaimJob of internal/db.go) and builds them in a container, and the publisher puts
-- what was built into a pacman repository. RemovePackage of internal/remove.go undoes it all.
--
-- Which file models which part:
--   Store            the tables of ent/schema, with a record for each row and the enums as data
--   Store/Json       the JSON column of metadata, and splitPackagesFromMetadata
--   Store/References which rows the columns of identifiers must lead to
--   Session          a connection: transactions, statements, errors, the clock, effects on disk
--   Queue            ClaimJob, MarkJob, JobArtifacts, EligibleAtFromCommit (internal/db.go)
--   Listing          ListPackages (internal/db.go)
--   Registry         CreatePackage, skipPendingJobsForPackage, depKind (internal/db.go)
--   Package          ParsePackage, parseSRCINFO, parsePKGBUILD, depName (internal/package.go)
--   Import           AuditPackage (internal/package.go), PreviewAUR, ResolveAURGraph and
--                    classifyAURDependencies (internal/import.go)
--   Remove           RemovePackage and its helpers (internal/remove.go)
--   Publish          a turn of RunPublisher, and publishJob (internal/roles.go)
--   Config           LoadConfig, ParseIntEnv (internal/config.go)
--   Tree             HashTree and CopyTree (internal/package.go), over a tree of files
--   Updater          runLocalUpdater (internal/updater.go)
--   Worker           a turn of RunWorker, buildJob and resolveCPUCap (internal/roles.go)
--   Notify           NotifyFailure (internal/roles.go)
--   Host             hostPathFor, hostPathFromBindMounts, dockerContainerMounts and
--                    resolveHostDataRoot (internal/hostpath.go), over Host/Paths, the functions
--                    of path/filepath that they call
--   Host/Container   currentContainerID and containerIDFromCgroup (internal/hostpath.go)
--   Import/Local     PreviewLocal and PromptConfirm (internal/import.go)
--   Accept           AcceptAUR and AcceptLocal (internal/import.go)
--   Scheduler        RunScheduler, refreshAUR and refreshLocal (internal/roles.go)
--   Controller       the handlers of RunController (internal/roles.go)
--   Command          main, add, remove, status and showPreview (cmd/aurforge/main.go)
--   Common           tests, lists as tables, and the functions of Go's packages strings and
--                    path/filepath that the program calls, over lists of bytes
--   Tests            the theorems at concrete inputs, and runs of the model
-- The children of a module hold its proofs, named for what they prove.
--
-- A function of the program that takes the client is a computation `M A` over a `Session`: it
-- returns a value or an error, and the session after it. The session holds the committed tables,
-- the working copy of the open transaction and the next identifiers. Every call of the client
-- reads from `Env` whether it fails, so each theorem that quantifies over `Env` speaks of every
-- way in which calls may fail, and of every clock. What is done on disk and by other programs is
-- kept as a list of effects, each of which may fail as well. A commit that fails publishes
-- nothing. One process runs alone: what another process commits between two calls of a function
-- is not modelled.
--
-- The loop of ClaimJob has no bound in the source; the model gives it fuel, and any fuel greater
-- than the number of pending jobs is enough, since each round that goes on skips one.
--
-- The search of ResolveAURGraph has fuel too, which bounds how deep it calls itself: more than the
-- number of names that the AUR knows is enough. What git, the AUR and the file system answer, and
-- the digest that HashTree returns, are arguments, and so are the staging directories, the hashes
-- and the texts of errors of the publisher; each package is previewed once, so an answer is
-- a function of the names that are asked for.
--
-- Identifiers, sizes and times are natural numbers without a bound, and a time counts nanoseconds
-- from the earliest one that Go represents. Texts are lists of bytes; white space is that of one
-- byte. The matches of the regular expressions of parsePKGBUILD are an argument. The generated
-- client of ent is taken at its documented behaviour: First, Only, Get, the unique indexes, and
-- NotFoundError where an update by identifier finds no row.
--
-- time.ParseDuration and the arithmetic of floating numbers of resolveCPUCap are arguments as well.
--
-- The scheduler polls the AUR and looks at the local directories again and again, so what it finds
-- there is a function of the number of calls made so far, as is each line that a command reads.
--
-- The regular expression for the id of a container is a function on bytes, whose letters are those
-- of ASCII.
--
-- Not modelled: the server and the shutdown of RunController, SearchAUR (whose results are an
-- argument), the opening of the database, signals and exit codes, log lines, and the modes of
-- files.
mod Common
pub mod Store
pub mod Session
pub mod Config
pub mod Tree
pub mod Updater
pub mod Queue
pub mod Package
pub mod Import
pub mod Registry
pub mod Remove
pub mod Notify
pub mod Worker
pub mod Publish
pub mod Host
pub mod Accept
pub mod Scheduler
pub mod Listing
pub mod Controller
pub mod Command
mod Tests
