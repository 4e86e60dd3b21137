-- ===== src/Bench.antt =====
-- cmd/acp-adaptive-bench/main.go and benchmark/adaptive: the load generator that measures the system.
-- Tickers and printing are left out.
pub mod Cell
pub mod Best
pub mod Ends
pub mod Stats
pub mod Collector
pub mod Counts
pub mod Pool
pub mod Results
pub mod Pace
pub mod Report
pub mod Run
pub mod Intervals
pub mod Rows
pub mod Turns
mod Tests
