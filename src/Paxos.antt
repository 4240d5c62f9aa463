-- ===== src/Paxos.antt =====
-- stored/paxos*.cpp: proposer, accepters and learners of the store daemon
pub mod Message
pub mod Accepter
pub mod Quorum
pub mod Taught
pub mod Votes
pub mod Agreement
pub mod Proposer
pub mod Numbers
pub mod Retry
pub mod Learner
pub mod Learned
mod Tests
