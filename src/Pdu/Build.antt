-- ===== src/Pdu/Build.antt =====
-- src/pdu.c: the master's requests. A write outside the transmit buffer is a fault.
pub mod Payload
pub mod Sent
pub mod Coils
pub mod Packed
use pamodbus.Common.{ℕ, zero, suc, ◌+◌, ◌*◌, ◌/◌, ◌%◌, ◌^◌, List, Option, none, some, ◌||◌}
use pamodbus.Common.{ℤ, pos, ltb, ◌==◌, if◌then◌else◌, u8, u16, bit_or, replicate}
use pamodbus.Common.{Pointer, deref, get_elem?, store, write, ◌>>=◌}
use pamodbus.Context.{Modbus, Result, pa_err_bad_param, pa_err_buffer_full}
use pamodbus.Framer.Outcome.{Wrapped, framed, refused}
use pamodbus.Framer.Ops.{wrap}
use pamodbus.Pdu.Wire.{put16, put_regs}

-- `txbuf[i / 8 + 6] |= 1 << (i % 8)`
unfoldable pub set_coil : List ℕ → ℕ → Option (List ℕ)
set_coil buf i = do
  byte ← get_elem? buf (6 + i / 8)
  write buf (6 + i / 8) (u8 (bit_or byte (u8 (2 ^ (i % 8)))))

-- The loop over the coils from `i` on, with `left` rounds left.
unfoldable pub set_coils : List ℕ → List ℕ → ℕ → ℕ → Option (List ℕ)
unfolding set_coil
set_coils buf values i zero = some buf
set_coils buf values i (suc left) = do
  v ← get_elem? values i
  buf ← (if v == 0 then some buf else set_coil buf i)
  set_coils buf values (i + 1) left

module _ {W : Type 0} where
  -- The end of every build function: wrap the PDU, and set `tx_len` on success.
  unfoldable pub wrapped : Modbus W → Wrapped W → ℤ × Modbus W
  wrapped ctx (framed n ctx') = (pos n, record ctx' { tx_len = n })
  wrapped ctx (refused ret) = (ret, ctx)

  unfoldable pub finish : Modbus W → ℕ → Result W
  unfolding wrapped
  finish ctx pdu_len = do w ← wrap ctx pdu_len; some (wrapped ctx w)

  -- The same with the transmit buffer as it was written.
  abbrev pub finish_with : Modbus W → List ℕ → ℕ → Result W
  finish_with ctx buf pdu_len = finish (record ctx { txbuf = some buf }) pdu_len

  unfoldable pub build_read_coils : Modbus W → ℕ → ℕ → Result W
  build_read_coils ctx addr count =
      if ltb count 1 || ltb 2000 count then some (pa_err_bad_param, ctx) else do
        buf ← write (deref ctx.txbuf) 0 0x01
        buf ← put16 buf 1 addr
        buf ← put16 buf 3 count
        finish_with ctx buf 5

  unfoldable pub build_read_discrete_inputs : Modbus W → ℕ → ℕ → Result W
  build_read_discrete_inputs ctx addr count =
      if ltb count 1 || ltb 2000 count then some (pa_err_bad_param, ctx) else do
        buf ← write (deref ctx.txbuf) 0 0x02
        buf ← put16 buf 1 addr
        buf ← put16 buf 3 count
        finish_with ctx buf 5

  unfoldable pub build_read_holding_registers : Modbus W → ℕ → ℕ → Result W
  build_read_holding_registers ctx addr count =
      if ltb count 1 || ltb 125 count then some (pa_err_bad_param, ctx) else do
        buf ← write (deref ctx.txbuf) 0 0x03
        buf ← put16 buf 1 addr
        buf ← put16 buf 3 count
        finish_with ctx buf 5

  unfoldable pub build_read_input_registers : Modbus W → ℕ → ℕ → Result W
  build_read_input_registers ctx addr count =
      if ltb count 1 || ltb 125 count then some (pa_err_bad_param, ctx) else do
        buf ← write (deref ctx.txbuf) 0 0x04
        buf ← put16 buf 1 addr
        buf ← put16 buf 3 count
        finish_with ctx buf 5

  unfoldable pub build_write_single_coil : Modbus W → ℕ → ℕ → Result W
  build_write_single_coil ctx addr value = do
    buf ← write (deref ctx.txbuf) 0 0x05
    buf ← put16 buf 1 addr
    buf ← put16 buf 3 (if value == 0 then 0x0000 else 0xff00)
    finish_with ctx buf 5

  unfoldable pub build_write_single_register : Modbus W → ℕ → ℕ → Result W
  build_write_single_register ctx addr value = do
    buf ← write (deref ctx.txbuf) 0 0x06
    buf ← put16 buf 1 addr
    buf ← put16 buf 3 value
    finish_with ctx buf 5

  unfoldable pub build_write_multiple_coils : Modbus W → ℕ → List ℕ → ℕ → Result W
  build_write_multiple_coils ctx addr values count =
      if ltb count 1 || ltb 1968 count
      then some (pa_err_bad_param, ctx)
      else let byte_count = u16 ((count + 7) / 8) in
        let pdu_len = 6 + byte_count in
        if ltb ctx.txbuf_size pdu_len then some (pa_err_buffer_full, ctx) else do
          buf ← write (deref ctx.txbuf) 0 0x0f
          buf ← put16 buf 1 addr
          buf ← put16 buf 3 count
          buf ← write buf 5 (u8 byte_count)
          buf ← store buf 6 (replicate byte_count 0)
          buf ← set_coils buf values 0 count
          finish_with ctx buf pdu_len

  unfoldable pub build_report_slave_id : Modbus W → Result W
  build_report_slave_id ctx = do buf ← write (deref ctx.txbuf) 0 0x11; finish_with ctx buf 1

  unfoldable pub build_mask_write_register : Modbus W → ℕ → ℕ → ℕ → Result W
  build_mask_write_register ctx addr and_mask or_mask = do
    buf ← write (deref ctx.txbuf) 0 0x16
    buf ← put16 buf 1 addr
    buf ← put16 buf 3 and_mask
    buf ← put16 buf 5 or_mask
    finish_with ctx buf 7

  -- From the check of the pointer `write_values` on.
  unfoldable pub read_write_with : Modbus W → ℕ → ℕ → ℕ → Pointer → ℕ → Result W
  read_write_with ctx read_addr read_count write_addr none write_count =
      some (pa_err_bad_param, ctx)
  read_write_with ctx read_addr read_count write_addr (some values) write_count =
      let byte_count = u16 (write_count * 2) in
      let pdu_len = 10 + byte_count in
      if ltb ctx.txbuf_size pdu_len then some (pa_err_buffer_full, ctx) else do
        buf ← write (deref ctx.txbuf) 0 0x17
        buf ← put16 buf 1 read_addr
        buf ← put16 buf 3 read_count
        buf ← put16 buf 5 write_addr
        buf ← put16 buf 7 write_count
        buf ← write buf 9 (u8 byte_count)
        buf ← put_regs buf 10 values 0 0 write_count
        finish_with ctx buf pdu_len

  unfoldable pub build_read_write_registers : Modbus W → ℕ → ℕ → ℕ → Pointer → ℕ → Result W
  unfolding read_write_with
  build_read_write_registers ctx read_addr read_count write_addr write_values write_count =
      if ltb read_count 1 || ltb 125 read_count
      then some (pa_err_bad_param, ctx)
      else if ltb write_count 1 || ltb 121 write_count
      then some (pa_err_bad_param, ctx)
      else read_write_with ctx read_addr read_count write_addr write_values write_count

  unfoldable pub build_write_multiple_registers : Modbus W → ℕ → List ℕ → ℕ → Result W
  build_write_multiple_registers ctx addr values count =
      if ltb count 1 || ltb 123 count
      then some (pa_err_bad_param, ctx)
      else let byte_count = u16 (count * 2) in
        let pdu_len = 6 + byte_count in
        if ltb ctx.txbuf_size pdu_len then some (pa_err_buffer_full, ctx) else do
          buf ← write (deref ctx.txbuf) 0 0x10
          buf ← put16 buf 1 addr
          buf ← put16 buf 3 count
          buf ← write buf 5 (u8 byte_count)
          buf ← put_regs buf 6 values 0 0 count
          finish_with ctx buf pdu_len
