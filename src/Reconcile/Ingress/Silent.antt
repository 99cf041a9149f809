-- ===== src/Reconcile/Ingress/Silent.antt =====
-- The marks that the actions of `reconcileIngress` in pkg/reconciler/ingress/ingress.go make before
-- its end.
pub mod Routes
pub mod Rules
pub mod Gateways
