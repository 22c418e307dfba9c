-- ===== src/Tests.antt =====
-- Runs of the definitions on concrete inputs, and the theorems at inputs that meet their hypotheses.
pub mod NaiveRuns
pub mod WireRuns
pub mod GatewayRuns
pub mod PoolRuns
pub mod EngineRuns
pub mod LadderRuns
pub mod FeedRuns
