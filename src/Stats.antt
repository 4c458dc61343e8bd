-- ===== src/Stats.antt =====
-- server/sfu/stats: what is counted of an RTP source for its receiver reports.
pub mod Ntp
pub mod Source
pub mod Receiver
pub mod Clock
pub mod Sequence
pub mod Report
pub mod Members
mod Examples
