-- ===== src/Lib.antt =====
-- CodeAlmanac keeps a wiki of a code base in the repository. This library models the parts of its
-- TypeScript program that decide what is stored: slugs, the topics graph and the commands that edit
-- it, the topics of pages, the jobs and their worker, the sync of agent transcripts into the wiki,
-- the review queue, the registry of wikis, and the references in pages. Paths are from the
-- repository's root, under archive/code/src.
--
-- Slug models slug.ts. Every other part keys its data by these slugs.
--
-- Topics models the topics graph. Topics/File is topics.yaml in memory and Topics/File/Disk its
-- reading and writing, on parsed YAML values (wiki/topics/yaml.ts); Topics/Dag is `ancestorsInFile`
-- (wiki/topics/dag.ts), with chains of parent edges as its specification in Topics/Dag/Climb;
-- Topics/Commands has the commands of cli/commands/topics: Link (link.ts, unlink.ts), Edit
-- (describe.ts, delete.ts, rename.ts) and Create (create.ts). A command takes the loaded file and
-- the slugs of the database's topics table and returns its reply and its effects in order: writing
-- the file, rewriting the pages, running the indexer.
--
-- Sync models sync/: Sync/Ledger is the ledger of absorbed transcripts and its reconciliation with
-- the job records (ledger.ts), Sync/Ledger/Disk its file, Sync/Cursor decides what of a transcript
-- is new (sweep.ts), and Sync/Sweep is the loop over the candidates, `executeSyncSweep`. What the
-- sweep observes while it handles one candidate (lock, job records, ledger file, transcript, answer
-- of `startAbsorb`) is an input of that round, so that other processes may change it between two
-- candidates. SHA-256 and the timestamp of a transcript line are parameters. Sync/Utf8 is how
-- `Buffer` reads and counts bytes. The ledger's times are strings, as `toISOString` makes them, and
-- the times that the sweep compares are milliseconds. Sync/Lock is the attempt to take a
-- repository's lock (lock.ts), one action on the directory at a time.
--
-- Pages is what the topics commands, tag and untag do to a page
-- (wiki/topics/frontmatter-rewrite.ts, cli/commands/topics/page-rewrite.ts, cli/commands/tag.ts):
-- Pages/Split cuts it at its fences, Pages/Read finds the topics among the lines of the
-- frontmatter, Pages/Scalars has the words on one line, and Pages/Rewrite is
-- `applyTopicsTransform`, and Pages/Tag has the two commands. `yaml.load` and `yaml.dump` are
-- parameters.
--
-- Jobs is the background work of a repository (jobs/). Jobs/Record and Jobs/View have the records,
-- their making, list and view (types.ts, records.ts), Jobs/Store the files of records and the
-- cancellation marks, Jobs/Finalization the end of a job (finalization.ts), Jobs/Execution its run
-- (executor.ts), Jobs/Start its start in the foreground, in the background and from the queue
-- (start.ts) and `jobs cancel` (cli/commands/jobs.ts), Jobs/Queue the choice of the next job
-- (queue.ts) and Jobs/Worker the loop over them (worker.ts). Jobs/Snapshots compares the pages
-- before and after a run (snapshots.ts). What the harness, the snapshots and the indexer answer is
-- an input of a run, and what other processes do to the store meanwhile a function on it.
--
-- Registry is the list of wikis on this machine (wiki/registry/): Registry/Disk is its file, and
-- Registry/AutoRegister the registration of the current repository.
--
-- Links has the paths and references in pages: Links/Paths (wiki/indexer/paths.ts), Links/Wikilinks
-- (wiki/indexer/wikilinks.ts) and Links/Mentions, the pages that mention a file
-- (wiki/query/file-mentions.ts), where SQLite's GLOB is a parameter.
--
-- Review models the queue of review items: Review/Item has ids and summaries, Review/Store the
-- reading and writing of review.yaml (review/store.ts) on parsed YAML values, Review/Commands the
-- commands add, decide, apply and reopen (cli/commands/review.ts).
--
-- Prelude has what the parts share: tests on native numbers, lists, and JavaScript strings as lists
-- of UTF-16 code units (of code points where Sync/Utf8 decodes them). The lower case of a character
-- beyond ASCII is a parameter of the paths in Links and of their comparison in Registry: the
-- Unicode tables of the runtime.
--
-- Fuel and bounds: `climb_rounds` counts the rounds of the source's own depth cap, 32. The endless
-- loop of `nextReviewId` runs on fuel, one round more than there are items: the candidates differ,
-- so the items cannot have them all. `emit` prints a number with one step more than the number,
-- which is more than its digits. `drain` is the worker's loop on fuel: one round more than there
-- are files is enough, where each round ends a job. `first_free` has the source's own cap of 1000
-- in the registry. All other recursion is structural.
--
-- Not modelled: SQLite and the indexer, the YAML and TOML packages, file systems and processes, the
-- agents and their harness, prompts, the viewer, installation, and the wording of messages.
mod Prelude
pub mod Slug
pub mod Topics
pub mod Jobs
pub mod Sync
pub mod Review
pub mod Pages
pub mod Registry
pub mod Links
