-- ===== src/SyncService.antt =====
-- The synchroniser (internal/service/sync.go) and the one-shot job around it (internal/syncjob/job.go):
-- the methods in `Sync`, what is asked of the ports in `Durable`, a cycle as a sequence of harmless
-- steps in `Progress` and `Cycle`, and a cycle without errors in `Complete`.
-- The Redis store and the repository, side by side, are in `Stores`.
pub mod Sync
pub mod Durable
pub mod Progress
pub mod Chains
pub mod Cycle
pub mod Complete
pub mod Stores
