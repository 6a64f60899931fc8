-- ===== src/Examples.antt =====
-- Tests of the definitions and instances of the theorems: paths and their index, values, nodes,
-- a graph of two nodes, and a subgraph.
mod Paths
mod Ulids
mod Values
mod States
mod Wired
mod Nodes
mod Connections
mod Defaults
mod Sorting
mod Planning
mod Executing
mod Skipping
mod Composites
