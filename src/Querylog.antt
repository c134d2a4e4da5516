-- ===== src/Querylog.antt =====
-- plugins/querylog: the query log. `Entry` is one observed query, `Ring` the bounded in-memory log,
-- and each has its laws in the modules below it.
pub mod Entry
pub mod Ring
pub mod Stats
pub mod Handler
