-- ===== src/Ipam.antt =====
-- pkg/ipam: the address manager and its types.
pub mod Base
mod Tests
pub mod NetworkTests
pub mod Types
pub mod Ip
pub mod Subnet
pub mod SubnetSlice
pub mod Network
pub mod Manager
