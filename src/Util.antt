-- ===== src/Util.antt =====
-- util/: the configuration and the pool of threads.
pub mod Config
pub mod ThreadPool
