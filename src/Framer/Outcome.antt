-- ===== src/Framer/Outcome.antt =====
-- The results of the operations of a framer, src/pamodbus_internal.h.
use pamodbus.Common.{ℕ, ℤ, some, ◌≢◌}
use pamodbus.Context.{Modbus}

-- `wrap`: PA_OK with `*framed_len` set and the context that it wrote, or an error.
pub data Wrapped (W : Type 0) : Type 0 where
  framed : ℕ → Modbus W → Wrapped W
  refused : ℤ → Wrapped W

-- `unwrap`: PA_OK with the offset of the PDU in the data and its length, or another code: the
-- number of bytes that are missing, or an error.
pub data Unwrapped : Type 0 where
  pdu_at : ℕ → ℕ → Unwrapped
  stopped : ℤ → Unwrapped

pub stopped-ne-pdu_at : {ret : ℤ} {off n : ℕ} → some (stopped ret) ≢ some (pdu_at off n)
stopped-ne-pdu_at e = cc
