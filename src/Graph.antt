-- ===== src/Graph.antt =====
-- librange/graph/graphdb.cpp: a graph of nodes
pub mod Interface
pub mod Nodes
pub mod Create
pub mod Visible
mod Tests
pub mod Wanted
pub mod History
pub mod Shown
mod WantedTests
