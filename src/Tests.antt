-- ===== src/Tests.antt =====
-- Concrete runs of the model, and each theorem applied to inputs that meet its conditions.
mod Lang
mod Components
mod Keys
mod Plan
mod Policy
mod Resolution
mod Diff
mod Sites
mod Resolver
mod Bucket
mod Notes
mod History
mod Revisions
mod Validation
mod Server
mod ActualState
