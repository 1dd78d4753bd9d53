-- ===== src/Tests.antt =====
-- Runs of the model on small inputs.
mod ServerKv
mod ServerFailures
mod ServerRegistry
mod ClientStore
mod Grid
mod ClientRecord
mod ClientGame
mod ClientRun
mod ClientPeers
mod ClientWorker
mod TraceChecker
mod Wire
mod Sessions
mod ServerSync
mod ClientCounts
mod ServerRuns
