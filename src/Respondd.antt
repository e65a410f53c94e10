-- ===== src/Respondd.antt =====
-- respondd/respondd-tmpl/lib, the answers of a gateway to respondd queries: the rate limit and the cache
-- of the structures that are sent.
pub mod Client
pub mod Clients
pub mod Interfaces
pub mod Merge
pub mod Neighbours
pub mod RateLimit
pub mod Statistics
pub mod Struct
mod Collected
mod Meshed
mod Examples
