-- ===== src/Tests.antt =====
-- Runs of the model on concrete inputs, and the theorems at inputs that meet their hypotheses.
mod Errors
mod Bulk
mod Write
mod Relations
mod Paths
mod Client
mod Repository
mod Registry
mod Search
mod Finder
mod ByQuery
mod Sequence
mod Iterator
mod Migration
