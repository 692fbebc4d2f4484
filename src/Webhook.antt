-- ===== src/Webhook.antt =====
-- pkg/webhook/validating: the rules that a Network or a Subnet object must meet before the API server
-- keeps it.
pub mod Refusal
pub mod Network
pub mod Subnet
pub mod Cluster
pub mod Tests
