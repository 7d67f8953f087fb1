-- ===== src/Pdu/Respond.antt =====
-- src/pdu.c: `pa_modbus_slave_respond` and `pa_modbus_slave_respond_error`. The cases are children.
pub mod Answer
pub mod Read
pub mod Write
pub mod Files
pub mod Registers
pub mod Written
pub mod Framed
pub mod Served
pub mod Combined
pub mod Safe
mod Tests
use pamodbus.Common.{
  ℕ, ◌%◌, ◌^◌, ◌/◌, ◌+◌, List, [], ◌∷◌, Option, some, u8, bit_or, deref, switch, write, ◌>>=◌,
}
use pamodbus.Context.{Modbus, Result, pa_err_protocol}
use pamodbus.Pdu.Build.{finish}
use Answer.{Reply, built, early}
use Read.{respond_bits, respond_regs, respond_status, respond_event_counter}
use Read.{respond_event_log, respond_server_id, respond_fifo}
use Write.{respond_write_coil, respond_write_register, respond_diagnostic, respond_write_coils}
use Write.{respond_write_registers, respond_mask, respond_read_write}
use Files.{respond_read_file, respond_write_file}

module _ {W : Type 0} (ctx : Modbus W) where
  -- The labels of the `switch` with their cases.
  abbrev pub respond_cases : ℕ → List (ℕ × Option (Reply W))
  respond_cases fc =
      (0x01, respond_bits ctx fc ctx.callbacks.read_coils_cb)
      ∷ (0x02, respond_bits ctx fc ctx.callbacks.read_discrete_inputs_cb)
      ∷ (0x03, respond_regs ctx fc ctx.callbacks.read_holding_registers_cb)
      ∷ (0x04, respond_regs ctx fc ctx.callbacks.read_input_registers_cb)
      ∷ (0x05, respond_write_coil ctx fc)
      ∷ (0x06, respond_write_register ctx fc)
      ∷ (0x07, respond_status ctx fc)
      ∷ (0x08, respond_diagnostic ctx fc)
      ∷ (0x0b, respond_event_counter ctx fc)
      ∷ (0x0c, respond_event_log ctx fc)
      ∷ (0x0f, respond_write_coils ctx fc)
      ∷ (0x10, respond_write_registers ctx fc)
      ∷ (0x11, respond_server_id ctx fc)
      ∷ (0x14, respond_read_file ctx fc)
      ∷ (0x15, respond_write_file ctx fc)
      ∷ (0x16, respond_mask ctx fc)
      ∷ (0x17, respond_read_write ctx fc)
      ∷ (0x18, respond_fifo ctx fc)
      ∷ []

-- The end of the function; the length of a PDU is never negative.
unfoldable pub send_reply : {W : Type 0} → Reply W → Result W
unfolding finish
send_reply (built n ctx) = finish ctx n
send_reply (early ret ctx) = some (ret, ctx)

unfoldable pub slave_respond : {W : Type 0} → Modbus W → Result W
unfolding send_reply
slave_respond ctx = do
  reply ←
      switch ctx.last_function (respond_cases ctx ctx.last_function)
        (some (early pa_err_protocol ctx))
  send_reply reply

unfoldable pub slave_respond_error : {W : Type 0} → Modbus W → ℕ → Result W
unfolding finish
slave_respond_error ctx exception_code = do
  buf ← write (deref ctx.txbuf) 0 (u8 (bit_or ctx.last_function 0x80))
  buf ← write buf 1 exception_code
  finish (record ctx { txbuf = some buf }) 2
