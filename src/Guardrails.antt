-- ===== src/Guardrails.antt =====
-- python/src/haikeilabs/agentware/middleware/guardrails: step enforcement, error tracking, response
-- validation, nudge texts, and the facade.
pub mod Nudge
pub mod StepEnforcer
pub mod ErrorTracker
pub mod Validator
pub mod Facade
