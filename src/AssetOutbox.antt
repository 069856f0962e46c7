-- ===== src/AssetOutbox.antt =====
-- src/asset_outbox.rs: the durable ledger of asset dispatches. Only one process owns the ledger, so
-- every method is one step on the ledger, the files beside it and nothing else. What a file
-- operation does is an argument: `written` says whether the ledger's file could be replaced.
-- Timestamps are natural numbers. The JSON of a file is read by a library, and a file is what its
-- text holds. The hash of an identity's JSON and the reader of UUIDs are in the record `Env`.
pub mod Entries
pub mod Store
pub mod Changes
pub mod Archive
pub mod Rotation
pub mod Events
pub mod Lifecycle
pub mod History
pub mod Runs
pub mod Validity
pub mod Restart
pub mod ValidStates
pub mod Batch
pub mod Parts
pub mod Sorted
pub mod Order
pub mod Members
pub mod Fairness
mod Tests
