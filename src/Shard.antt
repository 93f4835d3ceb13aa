-- ===== src/Shard.antt =====
-- internal/shard: which replica works on which namespace.
pub mod Doubles
pub mod Hasher
pub mod Jump
pub mod Consistency
pub mod Names
pub mod Assignment
pub mod Manager
pub mod Coordinator
pub mod Diff
pub mod Filing
pub mod Rounds
pub mod Tests
