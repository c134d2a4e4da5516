-- ===== src/Vlancache.antt =====
-- plugins/vlancache: the DNS cache. `Entry` is one cached response, `Store` the two tiers that hold
-- them, and each has its laws in the modules below it.
pub mod Entry
pub mod Store
pub mod Key
pub mod Policy
pub mod Handler
mod Examples
