-- ===== src/Compiler.antt =====
-- librange/compiler/expanding_visitor.cpp: the expansion of range expressions
pub mod Order
pub mod Sets
pub mod Sorting
pub mod Counts
pub mod Handlers
pub mod Resolved
pub mod Unique
pub mod Sequence
pub mod Digits
pub mod Sides
pub mod Count
pub mod Syntax
pub mod Admin
pub mod Visitor
pub mod Faults
pub mod Sound
mod Tests
mod TreeTests
pub mod Admins
