-- ===== src/Api.antt =====
-- librange/core: the names, the searches and the requests of `RangeAPI_v1`
pub mod Names
pub mod Lookup
pub mod Picks
pub mod Searches
pub mod Found
pub mod FirstKey
pub mod Visits
pub mod Orphans
pub mod Action
pub mod Backend
pub mod Requests
pub mod Write
pub mod Calls
pub mod Checked
pub mod Dispatch
pub mod Sent
pub mod Coded
pub mod Thrown
pub mod Relay
pub mod Inside
pub mod Sample
pub mod Memory
mod Tests
mod WriteTests
pub mod Sort
pub mod Frames
pub mod Rounds
pub mod Taken
pub mod Sorted
pub mod Roots
pub mod Collected
pub mod Topological
mod SortTests
pub mod Ancestor
pub mod Turns
pub mod Meeting
mod AncestorTests
pub mod Versions
mod VersionTests
pub mod Expand
