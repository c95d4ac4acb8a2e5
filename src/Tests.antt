-- ===== src/Tests.antt =====
-- Concrete runs of the models.
mod JournalData
mod JournalRun
mod DriftRun
mod PageRuns
mod QueueRun
mod DetailRun
mod RecoveryRun
mod ObserveRun
mod SubjectRun
mod VerificationRun
mod ResolutionRun
mod RankingRun
mod RpcRun
