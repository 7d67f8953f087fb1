-- ===== src/Pdu.antt =====
-- src/pdu.c: the protocol data units.
pub mod Wire
pub mod Build
pub mod Master
pub mod Slave
pub mod Respond
pub mod Feed
mod Tests
