-- ===== src/Examples.antt =====
-- Runs of the theorems at concrete objects.
mod Objects
mod Routes
mod Probing
mod Controllers
mod Gateways
mod Rollouts
mod Rounds
mod Watching
