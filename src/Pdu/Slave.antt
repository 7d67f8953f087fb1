-- ===== src/Pdu/Slave.antt =====
-- src/pdu.c: `parse_slave_request`, the slave's side of a request. `pdu` is the memory from the
-- PDU's first byte on, which may go on behind the PDU; a read or write outside an array is a fault.
pub mod Safe
pub mod Request
pub mod Frame
use pamodbus.Common.{ℕ, ◌+◌, ◌/◌, ◌%◌, ◌^◌, List, [], ◌∷◌, Option, some, not, ◌||◌}
use pamodbus.Common.{ltb, ◌==◌, if◌then◌else◌, u8, u16, shr, low_bits, bit_and, switch}
use pamodbus.Common.{get_elem?, load, store, write, ◌>>=◌}
use pamodbus.Context.{
  Modbus, Result, coil_bytes, reg_words, pa_ok, pa_err_bad_param, pa_err_protocol,
}
use pamodbus.Pdu.Wire.{get16, get_regs}

module _ {W : Type 0} (ctx : Modbus W) (pdu : List ℕ) (pdu_len : ℕ) where
  -- FC 01, 02 with a limit of 2000; FC 03, 04 with 125
  unfoldable pub read_request : ℕ → Result W
  read_request limit = if ltb pdu_len 5 then some (pa_err_protocol, ctx) else do
    addr ← get16 pdu 1
    count ← get16 pdu 3
    let ctx' = record ctx { slave_addr = addr; slave_count = count }
    if ltb count 1 || ltb limit count then some (pa_err_bad_param, ctx') else some (pa_ok, ctx')

  -- FC 05
  unfoldable pub write_coil_request : Result W
  write_coil_request = if ltb pdu_len 5 then some (pa_err_protocol, ctx) else do
    addr ← get16 pdu 1
    value ← get16 pdu 3
    coils ← write ctx.slave_coil_data 0 (if value == 0xff00 then 1 else 0)
    some (
      pa_ok,
      record ctx {
        slave_addr = addr;
        slave_count = 1;
        slave_coil_data = coils;
        slave_coil_count = 1;
        slave_data_valid = 1;
      },
    )

  -- FC 06
  unfoldable pub write_register_request : Result W
  write_register_request = if ltb pdu_len 5 then some (pa_err_protocol, ctx) else do
    addr ← get16 pdu 1
    value ← get16 pdu 3
    regs ← write ctx.slave_reg_data 0 value
    some (
      pa_ok,
      record ctx {
        slave_addr = addr;
        slave_count = 1;
        slave_reg_data = regs;
        slave_reg_count = 1;
        slave_data_valid = 1;
      },
    )

  -- FC 07, 0B, 0C, 11
  unfoldable pub plain_request : Result W
  plain_request =
      if ltb pdu_len 1
      then some (pa_err_protocol, ctx)
      else some (pa_ok, record ctx { slave_addr = 0; slave_count = 0 })

  -- FC 08
  unfoldable pub diagnostic_request : Result W
  diagnostic_request = if ltb pdu_len 5 then some (pa_err_protocol, ctx) else do
    sub ← get16 pdu 1
    value ← get16 pdu 3
    regs ← write ctx.slave_reg_data 0 value
    some (
      pa_ok,
      record ctx {
        slave_addr = sub;
        slave_count = 0;
        slave_reg_data = regs;
        slave_reg_count = 1;
        slave_data_valid = 1;
      },
    )

  -- FC 0F
  unfoldable pub write_coils_request : Result W
  write_coils_request = if ltb pdu_len 6 then some (pa_err_protocol, ctx) else do
    addr ← get16 pdu 1
    count ← get16 pdu 3
    let ctx' = record ctx { slave_addr = addr; slave_count = count }
    if ltb count 1 || ltb 1968 count then some (pa_err_bad_param, ctx') else do
      byte_count ← get_elem? pdu 5
      if ltb pdu_len (6 + byte_count)
          then some (pa_err_protocol, ctx')
          else if ltb coil_bytes byte_count
          then some (pa_err_protocol, ctx')
          else do
            bytes ← load pdu 6 byte_count
            coils ← store ctx.slave_coil_data 0 bytes
            some (
              pa_ok,
              record ctx' {
                slave_coil_data = coils;
                slave_coil_count = count;
                slave_data_valid = 1;
              },
            )

  -- FC 10
  unfoldable pub write_registers_request : Result W
  write_registers_request = if ltb pdu_len 6 then some (pa_err_protocol, ctx) else do
    addr ← get16 pdu 1
    count ← get16 pdu 3
    let ctx' = record ctx { slave_addr = addr; slave_count = count }
    if ltb count 1 || ltb 123 count then some (pa_err_bad_param, ctx') else do
      byte_count ← get_elem? pdu 5
      if ltb pdu_len (6 + byte_count)
          then some (pa_err_protocol, ctx')
          else let reg_count = u16 (byte_count / 2) in
            if ltb reg_words reg_count then some (pa_err_protocol, ctx') else do
              regs ← get_regs ctx.slave_reg_data pdu 6 0 reg_count
              some (
                pa_ok,
                record ctx' {
                  slave_reg_count = reg_count;
                  slave_reg_data = regs;
                  slave_data_valid = 1;
                },
              )

  -- FC 14, 15
  unfoldable pub file_record_request : Result W
  file_record_request = if ltb pdu_len 2 then some (pa_err_protocol, ctx) else do
    byte_count ← get_elem? pdu 1
    if ltb pdu_len (2 + byte_count)
        then some (pa_err_protocol, ctx)
        else let ctx' = record ctx { slave_addr = 0; slave_count = 0 } in
          let reg_count = u16 (byte_count / 2) in
          if ltb reg_words reg_count then some (pa_err_protocol, ctx') else do
            regs ← get_regs ctx.slave_reg_data pdu 2 0 reg_count
            some (
              pa_ok,
              record ctx' {
                slave_reg_count = reg_count;
                slave_reg_data = regs;
                slave_data_valid = 1;
              },
            )

  -- FC 16
  unfoldable pub mask_request : Result W
  mask_request = if ltb pdu_len 7 then some (pa_err_protocol, ctx) else do
    addr ← get16 pdu 1
    and_mask ← get16 pdu 3
    regs ← write ctx.slave_reg_data 0 and_mask
    or_mask ← get16 pdu 5
    regs ← write regs 1 or_mask
    some (
      pa_ok,
      record ctx {
        slave_addr = addr;
        slave_count = 1;
        slave_reg_data = regs;
        slave_reg_count = 2;
        slave_data_valid = 1;
      },
    )

  -- FC 17, from the length check on. The write address and count go to the coil data.
  unfoldable pub read_write_data : ℕ → ℕ → ℕ → ℕ → ℕ → Result W
  read_write_data read_addr read_count write_addr write_count byte_count =
      if ltb pdu_len (10 + byte_count)
      then some (pa_err_protocol, ctx)
      else let ctx' = record ctx { slave_addr = read_addr; slave_count = read_count } in
        let wc = u16 (byte_count / 2) in
        if ltb reg_words wc then some (pa_err_protocol, ctx') else do
          coils ← write ctx.slave_coil_data 0 (u8 (low_bits (shr write_addr 8) 8))
          coils ← write coils 1 (u8 (low_bits write_addr 8))
          coils ← write coils 2 (u8 (low_bits (shr write_count 8) 8))
          coils ← write coils 3 (u8 (low_bits write_count 8))
          regs ← get_regs ctx.slave_reg_data pdu 10 0 wc
          some (
            pa_ok,
            record ctx' {
              slave_coil_data = coils;
              slave_reg_count = wc;
              slave_reg_data = regs;
              slave_data_valid = 1;
            },
          )

  unfoldable pub read_write_request : Result W
  unfolding read_write_data
  read_write_request = if ltb pdu_len 11 then some (pa_err_protocol, ctx) else do
    read_addr ← get16 pdu 1
    read_count ← get16 pdu 3
    write_addr ← get16 pdu 5
    write_count ← get16 pdu 7
    if ltb read_count 1 || ltb 125 read_count
        then some (pa_err_bad_param, ctx)
        else if ltb write_count 1 || ltb 121 write_count
        then some (pa_err_bad_param, ctx)
        else do
          byte_count ← get_elem? pdu 9
          read_write_data read_addr read_count write_addr write_count byte_count

  -- FC 18
  unfoldable pub fifo_request : Result W
  fifo_request =
      if ltb pdu_len 3
      then some (pa_err_protocol, ctx)
      else do addr ← get16 pdu 1; some (pa_ok, record ctx { slave_addr = addr; slave_count = 0 })

  -- The labels of the `switch` with their cases.
  abbrev pub request_cases : List (ℕ × Result W)
  request_cases =
      (0x01, read_request 2000)
      ∷ (0x02, read_request 2000)
      ∷ (0x03, read_request 125)
      ∷ (0x04, read_request 125)
      ∷ (0x05, write_coil_request)
      ∷ (0x06, write_register_request)
      ∷ (0x07, plain_request)
      ∷ (0x08, diagnostic_request)
      ∷ (0x0b, plain_request)
      ∷ (0x0c, plain_request)
      ∷ (0x0f, write_coils_request)
      ∷ (0x10, write_registers_request)
      ∷ (0x11, plain_request)
      ∷ (0x14, file_record_request)
      ∷ (0x15, file_record_request)
      ∷ (0x16, mask_request)
      ∷ (0x17, read_write_request)
      ∷ (0x18, fifo_request)
      ∷ []

unfoldable pub parse_slave_request : {W : Type 0} → Modbus W → List ℕ → ℕ → Result W
unfolding read_request write_coil_request write_register_request plain_request diagnostic_request
    write_coils_request write_registers_request file_record_request mask_request read_write_request
    fifo_request
parse_slave_request ctx pdu pdu_len = if ltb pdu_len 1 then some (pa_err_protocol, ctx) else do
  fc ← get_elem? pdu 0
  let ctx = record ctx { last_function = fc; slave_data_valid = 0 }
  if not (bit_and fc 0x80 == 0)
      then some (pa_err_protocol, ctx)
      else switch fc (request_cases ctx pdu pdu_len) (some (pa_err_protocol, ctx))
