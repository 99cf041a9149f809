-- ===== src/Resources.antt =====
-- pkg/reconciler/ingress/resources: the objects that the reconciler wants in the cluster.
pub mod Constants
pub mod Host
pub mod Headers
pub mod Probes
pub mod Make
pub mod Grant
