-- ===== src/Util.antt =====
-- src/include/util and src/lib/util but for their geometry.
pub mod ThreadPool
