-- ===== src/Model.antt =====
-- The Kubernetes objects that pkg/reconciler/ingress and pkg/status read and write: the fields
-- that the program touches, under its names.
pub mod Names
pub mod Gateway
pub mod Ingress
