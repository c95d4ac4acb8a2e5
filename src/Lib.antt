-- ===== src/Lib.antt =====
-- Sentinel ProofLock, an admission service for on-chain agents: an operator pays for a ceremony that
-- analyses an agent, stores the evidence, and seals a lease in a registry; pages show what the lease,
-- the gate and a live session say.
--
-- The parts, and the files that model them:
--
-- - frontend/server/prooflock/operation-journal.ts, the journal of paid operations, is Journal: its
--   types (Journal/Types), the two tables of its database as lists of rows and the statements on them
--   (Journal/Db), the checks of what it is handed (Journal/Validate), `lookup`, `begin` and
--   `enforceAdmission` (Journal/Admission), the costs (Journal/Costs), and the operations that move
--   an operation on, up to `complete` (Journal/Phases). An operation takes the clock and the fresh
--   recovery id as arguments and gives the new database or what it throws; a transaction that throws
--   is rolled back. Journal/Steps has the step relation, one constructor for each operation of the
--   journal; Journal/Effects reduces a step to one of three effects, and the other files prove about
--   those: Journal/Invariant and Journal/Rows the shape of the tables, Journal/Commitments and
--   Journal/Verified what has been validated in each phase, Journal/Limits the admission limits,
--   Journal/Graph the phases, Journal/Idempotency the keys.
-- - frontend/server/prooflock/recovery.ts, which settles an operation whose write has an unknown
--   outcome, is Recovery: `recover` is `recover`, over the journal, and Recovery/Inspect is what it
--   reads of the chain, whose adapter is a record of answers. What others write to the journal while a
--   recovery waits for the chain is a parameter. Recovery/GivesUp is about the answer NOT_BROADCAST,
--   and Recovery/Seals about the answer SEALED.
-- - frontend/server/prooflock/drift.ts is Drift, and its check on demand Drift/Demand.
-- - frontend/lib/prooflock-status.ts is Status; frontend/lib/prooflock-verdict.ts, which reads the
--   lease status, is Verdict.
-- - The current decision of frontend/lib/proof-detail-state.ts, over observations of
--   frontend/lib/prooflock-observations.ts, is Detail.
-- - frontend/lib/verification-state.ts is Verification: `verificationReducer` is
--   `verification_reducer`, and Verification/Coordinator has the coordinator class, in which an event
--   is a call of a method, the end of a wait or a timer. Verification/Mirror runs the two together.
-- - frontend/lib/evaluate-state.ts is Evaluate: `evaluateReducer` is `evaluate_reducer`, and
--   Evaluate/Run has `executePaidRun`, whose runner is the stages that it reports and its
--   end; Evaluate/Coordinator has the coordinator of the free resolution, and Evaluate/Settles runs it
--   with the reducer.
-- - frontend/server/prooflock/current-observations.ts is Observe: `observeCurrentAccess` is
--   `observe_current_access`, its four reads and what they may not contradict are Observe/Reads, the
--   entries of the snapshot Observe/Entries, and `assertObservation` of
--   frontend/lib/prooflock-observations.ts, which each entry goes through, Observe/Assert. A read
--   that is too late, or throws, is rejected.
-- - frontend/server/prooflock/subject/classify.ts and frontend/server/prooflock/checks/ are Subject:
--   Subject/Classify has `classifySubject`, Subject/Account `inspectEoa`, Subject/Source and
--   Subject/Proxy the parts of `inspectContract` in Subject/Contract, and Subject/Checks
--   `runSubjectChecks` and `toEvidenceSubject`. The chain may change between two calls: an answer
--   depends on the moment of the call (Subject/Chain).
-- - frontend/lib/ranking.ts is Ranking, with the built-in sort as a stable insertion sort.
-- - `readBounded` of frontend/server/prooflock/rpc.ts is Rpc, over the ends of the turns of its loop.
-- - frontend/scanner/queue.ts is Queue: a call of `processNext` that waits is a worker, and an event
--   resumes one worker or enqueues addresses. Queue/Drains runs the only worker to the end.
--
-- Tests holds concrete runs.
--
-- Numbers that the source keeps as bigints or safe integers are natural numbers, a time is its
-- milliseconds or seconds from 1970 on, and a promise that rejects is an error value. All loops are structural,
-- over lists, texts and fixed tables; the loop over the seven bits of a coverage mask counts down
-- from seven. The functions of ethers, the hash of canonical JSON, and the dependencies that a caller
-- hands over are parameters.
--
-- Not modelled: the audit callback, `recordRecovered` (it only audits), the JSON round trip and the
-- pragmas of the journal, the abort signals of a recovery and of an observation, the rest of
-- frontend/lib/proof-detail-state.ts, `riskBand`, `historicalPlain`, and the pattern signals of
-- frontend/server/prooflock/checks/static-analysis.ts; the HTTP interface, the chain, storage and
-- compute adapters, the pages and the contracts, which are input and output or another language. The
-- runner of the ceremony and the risk analyses are left out too.
pub mod Base
pub mod Detail
pub mod Drift
pub mod Evaluate
pub mod Journal
pub mod Observe
pub mod Queue
pub mod Ranking
pub mod Recovery
pub mod Rpc
pub mod Status
pub mod Subject
pub mod Tests
pub mod Verdict
pub mod Verification
