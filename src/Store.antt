-- ===== src/Store.antt =====
-- pkg/runtime and its store: generations, the store over BoltDB, policies and revisions.
pub mod Generations
pub mod Bucket
pub mod Objects
pub mod Bolt
pub mod Results
pub mod Data
pub mod Generic
pub mod Policies
pub mod Revisions
pub mod ActualState
pub mod Initial
