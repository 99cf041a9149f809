-- ===== src/Reconcile.antt =====
-- pkg/reconciler/ingress: the reconciler of KIngress objects.
pub mod World
pub mod Quiet
pub mod Backends
pub mod Route
pub mod Listeners
pub mod Tls
pub mod Ingress
pub mod Lister
