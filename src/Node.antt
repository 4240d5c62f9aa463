-- ===== src/Node.antt =====
-- librange/db/pbuff_node.cpp
pub mod Versions
pub mod Info
pub mod Update
pub mod Edit
pub mod EdgeList
pub mod EdgeMoves
pub mod PlaceEdge
pub mod DropEdge
pub mod Tags
pub mod Values
pub mod Keys
pub mod KeyMoves
pub mod KeyList
pub mod SetTag
pub mod DropTag
pub mod Invariant
pub mod Carry
pub mod AddEdge
pub mod RemoveEdge
pub mod ChangeTag
pub mod DeleteTag
pub mod Storage
pub mod Object
pub mod Stored
pub mod Step
pub mod Pairs
pub mod History
pub mod GraphVersions
pub mod Codec
mod ObjectTests
mod Tests
