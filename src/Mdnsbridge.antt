-- ===== src/Mdnsbridge.antt =====
-- plugins/mdnsbridge: discovered names as DNS answers. `Glob` is the matcher behind the selectors, and
-- `Table` holds the discoveries.
pub mod Glob
pub mod Selector
pub mod Table
pub mod Handler
pub mod Listener
