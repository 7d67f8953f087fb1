-- ===== src/Host.antt =====
-- The files under host/: the serial port provider, and the two programs that use it.
pub mod Posix
pub mod Port
pub mod Serial
pub mod Clock
pub mod SlaveDisco
pub mod MasterDisco
mod Simulated
mod Tests
