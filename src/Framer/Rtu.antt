-- ===== src/Framer/Rtu.antt =====
-- src/framer_rtu.c: the RTU framer.
pub mod Wrap
pub mod Length
pub mod Accept
pub mod Total
pub mod Complete
use pamodbus.Common.{ℕ, ◌+◌, ◌-◌, ◌*◌, ◌/◌, ◌%◌, ◌^◌, Bool, ◌&&◌, ◌||◌, not}
use pamodbus.Common.{List, [], ◌∷◌, Option, some, bit_and, bit_or}
use pamodbus.Common.{ℤ, pos, ltb, leb, ◌==◌, if◌then◌else◌, u8, u16, shr, low_bits, switch}
use pamodbus.Common.{deref, get_elem?, load, store, write, ◌>>=◌}
use pamodbus.Crc.{pa_crc16}
use pamodbus.Context.{Modbus, pa_err_buffer_full, pa_err_protocol, pa_err_invalid_slave, pa_err_crc}
use pamodbus.Framer.Outcome.{Wrapped, framed, refused, Unwrapped, pdu_at, stopped}

unfoldable pub rtu_overhead : ℕ
rtu_overhead = 3

-- The expected length of the frame, or an early return.
pub data Expected : Type 0 where
  expect : ℕ → Expected
  return : ℤ → Expected

-- FC 01 to 04
unfoldable pub expect_read : List ℕ → ℕ → Option Expected
expect_read bytes len =
    if leb 4 len
    then (do
      bc ← get_elem? bytes 2
      if leb bc 250 && ltb 0 bc then some (expect (3 + bc + 2)) else some (expect 8))
    else some (expect 8)

-- FC 0F, 10
unfoldable pub expect_write_multiple : List ℕ → ℕ → Option Expected
expect_write_multiple bytes len =
    if ltb len 8
    then some (return (pos (8 - len)))
    else do bc ← get_elem? bytes 6; some (expect (7 + bc + 2))

-- FC 11
unfoldable pub expect_report_id : List ℕ → ℕ → Option Expected
expect_report_id bytes len =
    if len == 4
    then some (expect 4)
    else if len == 5
    then some (expect 5)
    else if ltb 5 len
    then (do
      bc ← get_elem? bytes 2
      if ltb 0 bc && leb bc 250 && leb (3 + bc + 2) len
          then some (expect (3 + bc + 2))
          else some (expect len))
    else some (return (pos (4 - len)))

-- FC 14, 15
unfoldable pub expect_file_record : ℕ → Option Expected
expect_file_record len = if ltb len 8 then some (return (pos (8 - len))) else some (expect len)

-- FC 17
unfoldable pub expect_read_write : List ℕ → ℕ → Option Expected
expect_read_write bytes len =
    if ltb len 11
    then some (return (pos (11 - len)))
    else do bc ← get_elem? bytes 9; some (expect (10 + bc + 2))

-- Any other code: exception responses.
unfoldable pub expect_exception : ℕ → Option Expected
expect_exception fc =
    if not (bit_and fc 0x80 == 0) && leb 0x01 (bit_and fc 0x7f) && leb (bit_and fc 0x7f) 0x18
    then some (expect 5)
    else some (return pa_err_protocol)

-- The `switch` on the function code: the labels with their cases, and the default.
abbrev pub length_cases : List ℕ → ℕ → List (ℕ × Option Expected)
length_cases bytes len =
    (0x01, expect_read bytes len)
    ∷ (0x02, expect_read bytes len)
    ∷ (0x03, expect_read bytes len)
    ∷ (0x04, expect_read bytes len)
    ∷ (0x05, some (expect 8))
    ∷ (0x06, some (expect 8))
    ∷ (0x0f, expect_write_multiple bytes len)
    ∷ (0x10, expect_write_multiple bytes len)
    ∷ (0x07, some (expect 8))
    ∷ (0x0b, some (expect 8))
    ∷ (0x0c, some (expect 8))
    ∷ (0x08, some (expect 8))
    ∷ (0x11, expect_report_id bytes len)
    ∷ (0x14, expect_file_record len)
    ∷ (0x15, expect_file_record len)
    ∷ (0x16, some (expect 10))
    ∷ (0x17, expect_read_write bytes len)
    ∷ (0x18, some (expect 6))
    ∷ []

unfoldable pub expected_len : ℕ → List ℕ → ℕ → Option Expected
unfolding expect_read expect_write_multiple expect_report_id expect_file_record expect_read_write
    expect_exception
expected_len fc bytes len = switch fc (length_cases bytes len) (expect_exception fc)

module _ {W : Type 0} where
  unfoldable pub rtu_wrap : Modbus W → ℕ → Option (Wrapped W)
  rtu_wrap ctx pdu_len =
      if ltb ctx.txbuf_size (1 + pdu_len + 2) then some (refused pa_err_buffer_full) else do
        pdu ← load (deref ctx.txbuf) 0 pdu_len
        buf ← store (deref ctx.txbuf) 1 pdu
        buf ← write buf 0 ctx.slave
        let frame_len = 1 + pdu_len
        crc ← pa_crc16 buf frame_len
        buf ← write buf frame_len (u8 (low_bits crc 8))
        buf ← write buf (frame_len + 1) (u8 (low_bits (shr crc 8) 8))
        some (framed (frame_len + 2) (record ctx { txbuf = some buf }))

  -- `ctx->slave != 0xFF && id != ctx->slave`, and no discovery address that fits instead.
  unfoldable pub wrong_slave : Modbus W → ℕ → Bool
  wrong_slave ctx id =
      not (ctx.slave == 0xff)
      && not (id == ctx.slave)
      && (ctx.discovery_addr == 0 || not (id == ctx.discovery_addr))

  -- From the length check on: CRC, slave address, the PDU.
  unfoldable pub check_frame : Modbus W → List ℕ → ℕ → ℕ → Option Unwrapped
  unfolding wrong_slave
  check_frame ctx bytes len expected =
      if ltb len expected then some (stopped (pos (expected - len))) else do
        lo ← get_elem? bytes (expected - 2)
        hi ← get_elem? bytes (expected - 1)
        let crc_received = u16 (bit_or (hi * 2 ^ 8) lo)
        crc_calc ← pa_crc16 bytes (expected - 2)
        if not (crc_calc == crc_received) then some (stopped pa_err_crc) else do
          id ← get_elem? bytes 0
          if wrong_slave ctx id
              then some (stopped pa_err_invalid_slave)
              else some (pdu_at 1 (expected - 1 - 2))

  -- An early return of the `switch`, or the checks behind it.
  unfoldable pub proceed : Modbus W → List ℕ → ℕ → Expected → Option Unwrapped
  proceed ctx bytes len (return ret) = some (stopped ret)
  proceed ctx bytes len (expect e) = check_frame ctx bytes len e

  unfoldable pub rtu_unwrap : Modbus W → List ℕ → ℕ → Option Unwrapped
  unfolding proceed
  rtu_unwrap ctx bytes len =
      if ltb len 4
      then some (stopped (pos (4 - len)))
      else do fc ← get_elem? bytes 1; e ← expected_len fc bytes len; proceed ctx bytes len e
