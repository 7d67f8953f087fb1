-- ===== src/Pdu/Master.antt =====
-- src/pdu.c: `parse_master_response`, the master's side of a response. `pdu` is the memory from the
-- PDU's first byte on, which may go on behind the PDU; a read or write outside an array is a fault.
pub mod Padded
pub mod Safe
pub mod Response
pub mod Frame
use pamodbus.Common.{ℕ, zero, suc, ◌+◌, ◌-◌, ◌*◌, ◌/◌, ◌%◌, ◌^◌, List, [], ◌∷◌, Option, some, not}
use pamodbus.Common.{ℤ, ltb, leb, ◌==◌, if◌then◌else◌, u16, bit_and, bit_or, min, switch}
use pamodbus.Common.{get_elem?, load, store, write, ◌>>=◌}
use pamodbus.Context.{Modbus, Result, coil_bytes, reg_words}
use pamodbus.Context.{pa_ok, pa_err_exception, pa_err_protocol}
use pamodbus.Pdu.Wire.{get16, get_regs}

-- `(pdu[2 + i * 2] << 8) | pdu[2 + i * 2 + 1]`, or the one byte alone if it is the last.
unfoldable pub padded_reg : List ℕ → ℕ → ℕ → Option ℕ
padded_reg pdu byte_count i = do
  val ← get_elem? pdu (2 + i * 2)
  if ltb (i * 2 + 1) byte_count
      then (get_elem? pdu (2 + i * 2 + 1) >>= λ lo. some (u16 (bit_or (val * 2 ^ 8) lo)))
      else some (u16 val)

-- The loop of FC 11 with `left` rounds left.
unfoldable pub padded_regs : List ℕ → List ℕ → ℕ → ℕ → ℕ → Option (List ℕ)
unfolding padded_reg
padded_regs regs pdu byte_count i zero = some regs
padded_regs regs pdu byte_count i (suc left) = do
  v ← padded_reg pdu byte_count i
  regs ← write regs i v
  padded_regs regs pdu byte_count (i + 1) left

module _ {W : Type 0} (ctx : Modbus W) (pdu : List ℕ) (pdu_len : ℕ) where
  -- FC 01, 02
  unfoldable pub bits_response : Result W
  bits_response = if ltb pdu_len 2 then some (pa_err_protocol, ctx) else do
    byte_count ← get_elem? pdu 1
    if ltb pdu_len (2 + byte_count)
        then some (pa_err_protocol, ctx)
        else if ltb coil_bytes byte_count
        then some (pa_err_protocol, ctx)
        else do
          bytes ← load pdu 2 byte_count
          coils ← store ctx.last_coil_data 0 bytes
          some
              (pa_ok, record ctx { last_coil_data = coils; last_coil_count = u16 (byte_count * 8) })

  -- FC 03, 04
  unfoldable pub regs_response : Result W
  regs_response = if ltb pdu_len 2 then some (pa_err_protocol, ctx) else do
    byte_count ← get_elem? pdu 1
    if ltb pdu_len (2 + byte_count)
        then some (pa_err_protocol, ctx)
        else if ltb reg_words (byte_count / 2)
        then some (pa_err_protocol, ctx)
        else do
          regs ← get_regs ctx.last_reg_data pdu 2 0 (u16 (byte_count / 2))
          some (pa_ok, record ctx { last_reg_count = u16 (byte_count / 2); last_reg_data = regs })

  -- FC 05, 06, 0F, 10
  unfoldable pub echo_response : Result W
  echo_response = if ltb pdu_len 5 then some (pa_err_protocol, ctx) else some (pa_ok, ctx)

  -- FC 07
  unfoldable pub status_response : Result W
  status_response = if ltb pdu_len 2 then some (pa_err_protocol, ctx) else do
    status ← get_elem? pdu 1
    coils ← write ctx.last_coil_data 0 status
    some (pa_ok, record ctx { last_coil_data = coils; last_coil_count = 8 })

  -- FC 08
  unfoldable pub diagnostic_response : Result W
  diagnostic_response = if ltb pdu_len 5 then some (pa_err_protocol, ctx) else do
    value ← get16 pdu 3
    regs ← write ctx.last_reg_data 0 value
    some (pa_ok, record ctx { last_reg_data = regs; last_reg_count = 1 })

  -- FC 0B
  unfoldable pub event_counter_response : Result W
  event_counter_response = if ltb pdu_len 5 then some (pa_err_protocol, ctx) else do
    status ← get16 pdu 1
    regs ← write ctx.last_reg_data 0 status
    count ← get16 pdu 3
    regs ← write regs 1 count
    some (pa_ok, record ctx { last_reg_data = regs; last_reg_count = 2 })

  -- FC 0C, with at least four bytes
  unfoldable pub event_log : ℕ → Result W
  event_log byte_count = do
    status ← get16 pdu 2
    regs ← write ctx.last_reg_data 0 status
    count ← get16 pdu 4
    regs ← write regs 1 count
    let log_bytes = min (byte_count - 4) coil_bytes
    bytes ← load pdu 6 log_bytes
    coils ← store ctx.last_coil_data 0 bytes
    some (
      pa_ok,
      record ctx {
        last_reg_data = regs;
        last_reg_count = 2;
        last_coil_data = coils;
        last_coil_count = u16 (log_bytes * 8);
      },
    )

  unfoldable pub event_log_response : Result W
  unfolding event_log
  event_log_response = if ltb pdu_len 2 then some (pa_err_protocol, ctx) else do
    byte_count ← get_elem? pdu 1
    if ltb pdu_len (2 + byte_count)
        then some (pa_err_protocol, ctx)
        else if leb 4 byte_count
        then event_log byte_count
        else some (pa_ok, ctx)

  -- FC 11
  unfoldable pub server_id_response : Result W
  server_id_response = if ltb pdu_len 2 then some (pa_err_protocol, ctx) else do
    byte_count ← get_elem? pdu 1
    if ltb pdu_len (2 + byte_count)
        then some (pa_err_protocol, ctx)
        else let reg_count = min (u16 ((byte_count + 1) / 2)) reg_words in
          do
            regs ← padded_regs ctx.last_reg_data pdu byte_count 0 reg_count
            some (pa_ok, record ctx { last_reg_count = reg_count; last_reg_data = regs })

  -- FC 14, 17
  unfoldable pub record_response : Result W
  record_response = if ltb pdu_len 2 then some (pa_err_protocol, ctx) else do
    byte_count ← get_elem? pdu 1
    if ltb pdu_len (2 + byte_count)
        then some (pa_err_protocol, ctx)
        else let reg_count = min (u16 (byte_count / 2)) reg_words in
          do
            regs ← get_regs ctx.last_reg_data pdu 2 0 reg_count
            some (pa_ok, record ctx { last_reg_count = reg_count; last_reg_data = regs })

  -- FC 15
  unfoldable pub write_record_response : Result W
  write_record_response = if ltb pdu_len 2 then some (pa_err_protocol, ctx) else do
    byte_count ← get_elem? pdu 1
    if ltb pdu_len (2 + byte_count) then some (pa_err_protocol, ctx) else some (pa_ok, ctx)

  -- FC 16
  unfoldable pub mask_response : Result W
  mask_response = if ltb pdu_len 7 then some (pa_err_protocol, ctx) else do
    addr ← get16 pdu 1
    regs ← write ctx.last_reg_data 0 addr
    and_mask ← get16 pdu 3
    regs ← write regs 1 and_mask
    or_mask ← get16 pdu 5
    regs ← write regs 2 or_mask
    some (pa_ok, record ctx { last_reg_data = regs; last_reg_count = 3 })

  -- FC 18
  unfoldable pub fifo_response : Result W
  fifo_response = if ltb pdu_len 2 then some (pa_err_protocol, ctx) else do
    byte_count ← get16 pdu 1
    if ltb pdu_len (2 + byte_count)
        then some (pa_err_protocol, ctx)
        else let fifo_count = min (byte_count / 2) reg_words in
          do
            regs ← get_regs ctx.last_reg_data pdu 2 0 fifo_count
            some (pa_ok, record ctx { last_reg_count = fifo_count; last_reg_data = regs })

  -- The labels of the `switch` with their cases.
  abbrev pub response_cases : List (ℕ × Result W)
  response_cases =
      (0x01, bits_response)
      ∷ (0x02, bits_response)
      ∷ (0x03, regs_response)
      ∷ (0x04, regs_response)
      ∷ (0x05, echo_response)
      ∷ (0x06, echo_response)
      ∷ (0x07, status_response)
      ∷ (0x08, diagnostic_response)
      ∷ (0x0b, event_counter_response)
      ∷ (0x0c, event_log_response)
      ∷ (0x0f, echo_response)
      ∷ (0x10, echo_response)
      ∷ (0x11, server_id_response)
      ∷ (0x14, record_response)
      ∷ (0x15, write_record_response)
      ∷ (0x16, mask_response)
      ∷ (0x17, record_response)
      ∷ (0x18, fifo_response)
      ∷ []

-- An exception response.
unfoldable pub exception_response : {W : Type 0} → Modbus W → List ℕ → ℕ → Result W
exception_response ctx pdu pdu_len = if ltb pdu_len 2 then some (pa_err_protocol, ctx) else do
  code ← get_elem? pdu 1
  some (pa_err_exception, record ctx { last_exception = code; last_error = pa_err_exception })

unfoldable pub clear_response : {W : Type 0} → Modbus W → Modbus W
clear_response ctx = record ctx {
  last_error = pa_ok;
  last_exception = 0;
  last_coil_count = 0;
  last_reg_count = 0;
}

unfoldable pub parse_master_response : {W : Type 0} → Modbus W → List ℕ → ℕ → Result W
unfolding exception_response clear_response bits_response regs_response echo_response
    status_response diagnostic_response event_counter_response event_log_response server_id_response
    record_response write_record_response mask_response fifo_response
parse_master_response ctx pdu pdu_len = if ltb pdu_len 1 then some (pa_err_protocol, ctx) else do
  fc ← get_elem? pdu 0
  let ctx = record ctx { last_function = fc }
  if not (bit_and fc 0x80 == 0)
      then exception_response ctx pdu pdu_len
      else switch fc (response_cases (clear_response ctx) pdu pdu_len)
          (some (pa_err_protocol, clear_response ctx))
