-- ===== src/Api/Write.antt =====
-- librange/core/write_api.cpp: the operations
pub mod Steps
pub mod Envs
pub mod Clusters
pub mod Hosts
pub mod Keys
pub mod Dependencies
