-- ===== src/Net.antt =====
-- crates/embrig-net: the network simulation over Ethernet.
pub mod Netmap
pub mod Udp
pub mod Tcp
pub mod Framing
