-- ===== src/Cache.antt =====
-- The cache backends of app/core/cache_backends.py.
pub mod Memory
pub mod Remote
pub mod Tiered
