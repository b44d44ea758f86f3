-- ===== src/Examples.antt =====
-- Concrete groups, StatefulSets and API servers, on which the theorems are applied.
mod Data
mod Store
mod Sorting
mod Rolling
mod Controllers
mod Objects
mod Runs
mod Library
mod Reconciles
mod LeaderWorkerSets
mod Settles
mod Watches
