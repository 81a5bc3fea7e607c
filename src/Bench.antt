-- ===== src/Bench.antt =====
-- crates/bench/src/bin/datadir_bench.rs: the benchmark program.
pub mod Usize
pub mod Decimals
pub mod Args
pub mod Program
pub mod Triple
pub mod Host
pub mod Steps
pub mod Main
