-- ===== src/Common.antt =====
-- source/common: what the programs of every transport share.
pub mod Arguments
pub mod Benchmarks
pub mod Sockets
pub mod Signals
pub mod Process
pub mod Parent
pub mod Analysis
pub mod Clock
mod Tests
