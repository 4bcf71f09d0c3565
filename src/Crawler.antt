-- ===== src/Crawler.antt =====
-- The crawler, which finds home agents and has them polled.
pub mod HomeAgentDb
pub mod Protocol
