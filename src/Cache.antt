-- ===== src/Cache.antt =====
-- The query cache: include/metal/cache_*.hpp and include/metal/query_cache_manager.hpp.
pub mod Codec
pub mod Duration
pub mod Tags
pub mod Memory
pub mod Manager
pub mod Tests
