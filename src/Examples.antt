-- ===== src/Examples.antt =====
-- Runs of the models on concrete inputs.
mod Topologies
mod Facilities
mod Lifecycles
mod Controls
mod Histories
mod Waits
mod Runtimes
mod Handles
mod Budgets
mod Joins
mod Shutdowns
