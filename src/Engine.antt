-- ===== src/Engine.antt =====
-- pkg/engine: policy resolution, its result, and the plan of actions that makes it real.
pub mod Keys
pub mod Instances
pub mod Resolution
pub mod Nodes
pub mod Resolver
pub mod Plan
pub mod Actions
pub mod Diff
