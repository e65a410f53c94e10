-- ===== src/Cloudflare.antt =====
-- _states/cloudflare.py, the state module that keeps the records of a Cloudflare zone as the pillar
-- wants them: records, zones and requests, the check before a run, what exists, the changes and
-- their order, and the state function.
pub mod Record
pub mod Data
pub mod Zone
pub mod Sanity
pub mod Existing
pub mod Order
pub mod Diff
pub mod Manage
mod Examples
