-- ===== src/Tests.antt =====
-- Tests of the definitions, and for each result an input at which it applies.
pub mod Data
mod Graphs
mod Simulations
mod Creations
mod Providers
mod Reports
pub mod Sinks
mod Loads
pub mod Pipelines
pub mod Fetching
mod Warming
pub mod Queries
pub mod Rendering
pub mod Runs
mod Delivery
pub mod Writers
mod Repository
mod Views
mod Agreement
