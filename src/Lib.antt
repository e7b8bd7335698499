-- ===== src/Lib.antt =====
-- A verification library for the TypeScript packages of ocrowley-commons.
--
-- The program is a set of packages that share a file store. This library models the ones that
-- keep state or decide who may do what:
--
--   Persistence        packages/persistence/src/fileStore.ts: one directory of JSON files
--   Persistence/LocalStore
--                      packages/persistence/src/localStore.ts: collections in the browser's storage
--   Jobs               packages/jobs/src/CaspaJobService.ts: durable jobs on the file store
--   Policy             packages/policy/src/index.ts: PolicyEngine and productionWriteRules
--   Osint/Policy       packages/osint/src/policy.ts: the gate of OSINT actions
--   Osint/Auth         packages/osint/src/auth/whoOperators.ts, and in Auth/Request
--                      packages/osint/src/auth/authorizeRequest.ts: who may send a request
--   Osint/Refinement   packages/osint/src/refinementLoop.ts: the seed-expansion loop
--   Osint/Critique     packages/osint/src/critiqueLoop.ts: runCritiqueLoop; deterministicCritique is in
--                      Osint/Engine/Deterministic
--   Osint/Engine       packages/osint/src/recursiveEngine.ts: both loops over one evidence store
--   Osint/WhoAudit     packages/osint/src/audit/whoAudit.ts: the ledger of Audit, on disk
--   Osint/WhoJobs      packages/osint/src/jobs/whoJobService.ts, whoJobTypes.ts and whoProgress.ts
--   Osint/Cases        the directories and ids of cases (packages/osint/src/dossier/fromWhoResult.ts)
--   Osint/Dossiers     packages/osint/src/dossier/dossierStore.ts: dossiers on disk
--   Osint/EntityIndex  packages/osint/src/dossier/entityIndex.ts: the latest dossier of an entity
--   Osint/WhoWorker    packages/osint/src/jobs/whoWorker.ts: the worker that processes WHO jobs
--   Crypto             packages/crypto/src/encryption.ts: encryption of stored texts
--   Darkweb/Policy     packages/darkweb/src/policy.ts: the gate of dark-web queries
--   Darkweb/Monitor    packages/darkweb/src/monitor.ts: the monitor of entities
--   Audit              packages/audit/src/index.ts: AuditLedger
--   Workflow           packages/workflow/src: the guided steps of a project
--   Story/Promises     packages/story-memory/src/promise.ts and promiseRegistryService.ts
--   Common             lists, tests, stable sorting, text and failure, shared by the others
--
-- The job service reads and writes its jobs through the file store (Jobs.Service uses
-- read_json_file, write_json_file and list_json_files), and both gates build a PolicyEngine of
-- their rules for every question. Osint.WhoJobs calls the job service, Osint.WhoAudit keeps the
-- entries of Audit in the file store, and Osint.Dossiers encrypts by Crypto. Osint.WhoWorker puts
-- them together: a worker claims a job, asks the gate, looks up, writes the dossier, the index and
-- the audit entries, and completes the job. Function names are those of the source in lower case with
-- underscores: claimNextJobWithLease is claim_next_job_with_lease, and so on; `type` is `kind`.
--
-- How the code is rendered:
--   - A directory is a list of names and values, and readdir returns names in its order. JSON
--     values are held as values: JSON.parse inverts JSON.stringify on what the code stores, and
--     a field that is undefined is a missing one. The metadata of a WHO audit entry is the exception:
--     it is hashed before it is printed, and json_trip is what printing and parsing make of it.
--   - A time is the number of its milliseconds, also where the source stores an ISO text. Each
--     reading of the clock is an argument of its own (now, later), and so is a fresh id.
--     Only the audit ledgers keep their times as the texts that are hashed.
--     The worker reads the clock many times: its world counts the readings of `clock`.
--   - A call that awaits is one step, except in Jobs/Race, where a claim is split between its
--     last reading and its write, and in Persistence/Crash, where a write is a row of calls of the
--     file system and may stop before, between, after or inside any of them.
--   - `Partial<CaspaJob>` in patch is a function that changes fields.
--   - Values of type unknown are of an arbitrary type, a parameter. Policy attributes are texts or
--     flags, the kinds that the rules read.
--   - localeCompare on rule ids is the parameter id_le, an order where a theorem needs one;
--     SHA-256 over the printed entry is the parameter hash of the ledger.
--   - Priorities are natural numbers, as in every rule set of the packages.
--   - Callbacks that the code is given (queryFn, extractFn, synthesise, critique, enrich) and
--     toLowerCase are parameters. A query that throws is an optional result.
--   - Node's AES-GCM, base64, hexadecimal and HMAC are the interface Crypto.Node with the laws
--     Crypto.RoundTrip.IsLawful; a cipher throws on a key that it does not take. Regular expressions on case references and messages are written
--     out as functions on texts.
--   - The lookup of a WHO job (who.ts) is a parameter that takes the world to a world, so that it
--     covers what others do while it runs; a worker's sleep is one as well.
--   - The evidence that the callbacks of Osint/Engine collect is written as what the recorded sweeps
--     and rounds leave, since each callback runs once for each of them.
--   - In Osint/Auth the environment is a record, and hashing, hexadecimal decoding and the regular
--     expressions of the headers are the fields of the parameter ext, with no hypotheses, and so is
--     decodeURIComponent, which may throw.
--   - The room that the browser's storage has is a parameter of Persistence/LocalStore: setItem writes
--     the value where there is room and throws where there is none.
--   - Loops are structural recursion on the list they run over. The loops over sweeps and rounds
--     recurse on the sweeps or rounds that are left, which start at maxSweeps and maxRounds, so they
--     do not run out early. The worker's loop has no bound of its own and runs on fuel.
--
-- Not modelled: the network clients, the HTTP server and the command-line bridges of
-- packages/osint, packages/darkweb, packages/ai-client and packages/research, which are I/O; the
-- prompt texts, word tables and regular expressions of the writing packages; the printing of an
-- audit entry before it is hashed.
pub mod Common
pub mod Persistence
pub mod Policy
pub mod Audit
pub mod Jobs
pub mod Crypto
pub mod Osint
pub mod Darkweb
pub mod Workflow
pub mod Story
