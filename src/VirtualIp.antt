-- ===== src/VirtualIp.antt =====
-- cpg_virtual_ip.c: the messages between the nodes and their sending, the names of states and
-- events, the profiles of a virtual ip.
pub mod Message
pub mod Delivery
pub mod Multicast
pub mod Names
pub mod Profiles
