-- ===== src/Validation.antt =====
-- server/src/services/validation: the required-information rules, the engine that evaluates them
-- over an entry and the check of the rule registry at startup.
pub mod Entry
pub mod Calendar
pub mod Normalise
pub mod Domain
pub mod Rule
pub mod Rules
pub mod Engine
pub mod SelfCheck
pub mod Totality
pub mod Assessment
mod Tests
