-- ===== src/Tests.antt =====
-- Runs of the model, and each theorem at a concrete input.
mod Pages
mod Pool
mod Nodes
mod Queries
mod Transactions
mod Joins
mod Heaps
mod Databases
mod Graphs
