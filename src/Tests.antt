-- ===== src/Tests.antt =====
-- Concrete inputs, and the theorems at these inputs.
mod Fixtures
mod Enforcement
mod Bundles
mod Evaluations
mod Guards
mod Facades
mod Tasks
mod Conversations
mod Agents
mod Inferences
mod Manifests
mod Routes
mod Syncs
mod Links
