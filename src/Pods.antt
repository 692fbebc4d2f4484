-- ===== src/Pods.antt =====
-- From a pod to its addresses: pkg/ipam/store keeps the IP instances of pods at the API server, and
-- pkg/controllers/networking/pod_controller.go joins the manager, the store and the cache.
pub mod Texts
pub mod Types
pub mod Store
pub mod Controller
pub mod Strategy
pub mod Config
pub mod Invariant
pub mod Reconcile
mod ConfigTests
pub mod Tests
