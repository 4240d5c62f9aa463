-- ===== src/Search.antt =====
-- The searches that librange/compiler/expanding_visitor.cpp, librange/core/read_api.cpp and
-- librange/core/write_api.cpp write out again and again: a queue or a stack of nodes, and the names
-- that were visited.
pub mod Loop
pub mod Ends
pub mod Reach
pub mod Explored
pub mod More
pub mod Nearest
