-- ===== src/Semp/Getters.antt =====
-- The scrapes of internal/semp, one function for each Get…Semp1 method: the command, the loop, and the
-- metrics of each item.
pub mod Queues
pub mod TopicEndpoints
pub mod Vpns
pub mod Clients
pub mod Rest
pub mod Bridges
pub mod BridgeStats
pub mod System
pub mod Disks
pub mod GlobalStats
pub mod Redundancy
pub mod Memory
pub mod Hardware
pub mod SpoolStats
pub mod Spool
pub mod VpnSpool
pub mod BridgeRemote
pub mod BridgeDetail
pub mod ClientFlows
pub mod ClientConnections
pub mod Version
pub mod BridgeClientCert
