-- ===== src/Lib.antt =====
-- Verification of the engine of the repository: a platform that finds savings for companies, plans
-- their execution by AI capabilities under human authority, and accounts for the value.
--
-- The parts, and the files that model them (paths are from the repository's root):
-- * src/lib/core/autonomy.ts, in Core/Autonomy.antt: the grants of authority. `resolve_autonomy` is
--   `resolveAutonomy`, `halt_all` is `haltAll`; Core/Autonomy/Govern.antt, Policy.antt and
--   Halt.antt hold the proofs.
-- * src/lib/core/opportunity.ts, in Core/Opportunity.antt: `startAvailable`.
-- * src/lib/benefits/ledger.ts, in Benefits/Ledger.antt (stages, table, `createBenefit`, `advance`,
--   `advanceAtLeast`) and Benefits/Summary.antt (`summariseLedger`,
--   its sums in Summary/Sums.antt). Benefits/Ledger/Ratchet.antt
--   has the operations as a step relation.
-- * src/lib/execution, in Execution: Types (plans and tasks), Store (the database, `persistPlan`,
--   `getPlan` and the monad of operations that read and write it and may throw), Task (`executeTask`,
--   `requestApproval`), Authorise (`authorisePlan`), Loop and Run (`runExecution`), Control
--   (`approveTask`, `stopPlan`). `authorisePlan` and `runExecution` call the ledger, the baselines
--   and the queue of the other parts.
-- * src/lib/verification, in Verification: Baseline, Facts (`getFacts` of
--   src/lib/db/repositories/facts.ts) and Verify (`verifyPlan`).
-- * src/lib/jobs/queue.ts, in Jobs/Queue.antt. `claimNext` is the reading of a candidate followed by
--   `claim`, so that two workers can interleave between the two statements. Jobs/Runner.antt has
--   `tick` and `drain` of src/lib/jobs/runner.ts, with the handlers as a parameter.
-- * src/lib/auth, in Auth: Roles (rbac.ts), Sessions (sessions.ts, with the hash of a token as a
--   parameter) and Attempts (attempts.ts).
-- * src/lib/gtm, in Gtm: Recovery (recovery.ts: the rules and `decide`; Recovery/Table.antt has the
--   table of failures, `withRecovery` and `health`), Governance (governance.ts: `needsEscalation` and
--   the table of decisions) and Outreach (outreach.ts with `saveOutreach` and `isSuppressed` of
--   store.ts: `compose`; Outreach/Send.antt has `composeCampaign`, `approve` and `send`).
-- * sage-halpin/server, in Sage: Store (store.ts: the interface `Store`, the laws that its clients
--   rely on, and Store/Memory.antt, `MemoryStore`), Accounts (auth.ts, over any store that keeps the
--   laws), Routes (routes/auth.ts, which calls the accounts) and Net (net.ts: `isPublicAddress`,
--   `checkFeedUrl`, `publicOnlyLookup`; Net/Fetch.antt has `fetchPublicText`).
-- * src/lib/estate/import.ts, in Estate/Csv.antt: `splitCsvLine`, as a scan of the codes of the line.
-- Prelude.antt passes on the library's names and adds Boolean tests, list functions, texts, maps with
-- texts as keys and signed integers over the native numbers.
--
-- How the program is read. A string that is only compared is a number, 0 for the empty string, or,
-- where the program has literals of it, a native text; a text that shows values is a constructor
-- with those values, or is left out where no code reads it. An instant is its milliseconds. Money
-- is whole pounds, in signed integers, so rounding is the identity; a confidence is in hundredths.
-- The clock, `randomUUID()`, the registry of adapters and the playbooks' measurement windows are
-- arguments; an operation reads the clock once. An adapter is a function of all invocations that
-- were made before and of the present one, which answers or rejects. A realised value is only
-- written rounded. `toLowerCase` is that of the letters of ASCII. The sealing of a session's cookie
-- is a parameter, with the law that what was sealed is read back. A table is the list of its rows
-- in the order of insertion, with upserts by id; a value survives its JSON text. `Db.invoked` is no
-- table: it records what was handed to adapters, which is what the safety theorems are about.
--
-- Bounds. The retry loop of `executeTask` runs on the number of rounds that its test still allows,
-- `MAX_RETRIES` + 1, so no fuel is added to it; the loop of `runExecution` recurs on the tasks.
-- `withRecovery` runs on fuel, and nine rounds are enough; `fetchPublicText` recurs on the
-- redirects that are left. Within a run no other operation is interleaved, except at its end, where
-- the database that the last steps find is arbitrary.
--
-- Not modelled: `planExecution` and the router of capabilities, the connectors, the analysis
-- engines, the rest of the import of customers, the pipeline and the scoring of the go-to-market
-- engine, the assistant, the vault, the web pages, and the boardroom's pages, consultations and
-- calls of models. They are network calls, texts and screens, or are still to come.
pub mod Prelude
pub mod Core
pub mod Benefits
pub mod Execution
pub mod Verification
pub mod Jobs
pub mod Auth
pub mod Gtm
pub mod Sage
pub mod Estate
