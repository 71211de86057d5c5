-- ===== src/Examples.antt =====
-- Tests of the definitions at concrete inputs, and the theorems at inputs that meet their
-- hypotheses.
mod State
mod Events
mod Middleware
mod Kubernetes
mod Fs
mod Http
mod Batch
mod Retry
mod Disk
mod Cache
mod Shared
mod MetaRules
mod K8sRules
mod Derivatives
