-- ===== src/Dns.antt =====
-- The DNS gateway, dnsgw, with the byte-level helpers that it shares with the crawler.
pub mod Wire
pub mod Name
pub mod Record
pub mod Header
pub mod Query
pub mod ReplyQueue
pub mod UdpSpeaker
pub mod DnsConnection
pub mod Instrumenter
pub mod LoadBalancer
pub mod QueryMap
pub mod HaRequest
pub mod HaReply
mod Samples
mod Tests
