-- ===== src/Ddns.antt =====
-- _modules/ddns.py and _states/ddns.py, updates of a name server after RFC 2136.
pub mod Message
pub mod Update
pub mod Delete
pub mod Hosts
pub mod State
mod Examples
