-- ===== src/Middleware.antt =====
-- common/middleware/src: the stages that every line passes.
pub mod Interface
pub mod Redact
pub mod LineRules
pub mod K8sLineRules
pub mod MetaRules
pub mod Executor
