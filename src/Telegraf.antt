-- ===== src/Telegraf.antt =====
-- telegraf/files/haproxy_peers_stats.py: what the runtime API of HAProxy says of its peers and stick
-- tables, as lines for Telegraf.
pub mod Duration
pub mod Peers
pub mod Tables
pub mod Lines
pub mod Main
mod Examples
