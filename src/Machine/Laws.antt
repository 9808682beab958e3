-- ===== src/Machine/Laws.antt =====
-- Activation: what is reported of a limit, and that the rollback deletes at most once.
pub mod Limits
pub mod Rollback
