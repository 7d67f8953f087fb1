-- ===== src/Framer.antt =====
-- The framer operation tables of src/pamodbus_internal.h: what `wrap` and `unwrap` return, and the
-- calls through `ctx->framer`. The two framers are children.
pub mod Outcome
pub mod Frames
pub mod Rtu
pub mod Tcp
mod Tests
pub mod Ops
