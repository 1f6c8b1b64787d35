-- ===== src/Tests.antt =====
-- Runs of the model on small inputs, and each theorem at one of them.
mod Samples
mod Roots
mod Outcomes
mod Indexing
mod Planning
mod Linking
mod Flows
mod Running
mod Schemas
mod Hirings
