-- ===== src/RawTypes.antt =====
-- auxtools/src/raw_types: BYOND's structures as the library reads and writes them in memory.
pub mod Memory
pub mod Misc
pub mod Names
pub mod Buffers
pub mod Tables
mod Tests
