-- ===== src/Caches.antt =====
-- The shared tables of the controllers and of the daemon. Each call holds the table's lock from its
-- first line to its return.
pub mod UuidMutex
pub mod PodIpCache
pub mod NodeIpCache
pub mod CallbackSet
mod Tests
