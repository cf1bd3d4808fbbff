-- ===== src/Utils.antt =====
-- cpg_utils.c: the address of the interface (`Ip`), FreeSWITCH's sofia profiles (`Sofia`), and the
-- gratuitous ARP (`Garp`).
pub mod Ip
pub mod Sofia
pub mod Garp
