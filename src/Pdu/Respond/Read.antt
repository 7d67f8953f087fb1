-- ===== src/Pdu/Respond/Read.antt =====
-- `pa_modbus_slave_respond` of src/pdu.c: the cases that read coils or registers.
use pamodbus.Common.{ℕ, ◌+◌, ◌*◌, ◌/◌, Option, min}
use pamodbus.Common.{ltb, if◌then◌else◌, u8, u16, low_bits, replicate}
use pamodbus.Common.{deref, get_elem?, load, store, write, ◌>>=◌}
use pamodbus.Context.{Modbus, ReadFn, coil_bytes}
use pamodbus.Pdu.Wire.{put16, put_regs}
use pamodbus.Pdu.Respond.Answer.{Reply, filled, after_read, built_in}

module _ {W : Type 0} (ctx : Modbus W) where
  -- FC 01, 02: `coil_data` is a local array of 256 / 8 + 1 bytes.
  unfoldable pub respond_bits : ℕ → Option (ReadFn W) → Option (Reply W)
  unfolding after_read
  respond_bits fc cb =
      let count = ctx.slave_count in
      let byte_count = u16 ((count + 7) / 8) in
      after_read ctx cb ctx.slave_addr count λ ctx' values. do
        coil_data ← store (replicate coil_bytes 0) 0 values
        buf ← write (deref ctx.txbuf) 0 fc
        buf ← write buf 1 (u8 byte_count)
        bytes ← load coil_data 0 byte_count
        buf ← store buf 2 bytes
        built_in ctx' buf (2 + byte_count)

  -- FC 03, 04: `reg_data` is a local array of 128 registers.
  unfoldable pub respond_regs : ℕ → Option (ReadFn W) → Option (Reply W)
  unfolding after_read filled
  respond_regs fc cb =
      let count = ctx.slave_count in
      let byte_count = u16 (count * 2) in
      after_read ctx cb ctx.slave_addr count λ ctx' values. do
        reg_data ← filled 128 values
        buf ← write (deref ctx.txbuf) 0 fc
        buf ← write buf 1 (u8 byte_count)
        buf ← put_regs buf 2 reg_data 0 0 count
        built_in ctx' buf (2 + byte_count)

  -- FC 07
  unfoldable pub respond_status : ℕ → Option (Reply W)
  unfolding after_read filled
  respond_status fc = after_read ctx ctx.callbacks.read_coils_cb 0 8 λ ctx' values. do
    status ← filled 1 values
    buf ← write (deref ctx.txbuf) 0 fc
    byte ← get_elem? status 0
    buf ← write buf 1 byte
    built_in ctx' buf 2

  -- FC 0B
  unfoldable pub respond_event_counter : ℕ → Option (Reply W)
  unfolding after_read filled
  respond_event_counter fc =
      after_read ctx ctx.callbacks.read_holding_registers_cb 0xfffe 2 λ ctx' values. do
        regs ← filled 2 values
        buf ← write (deref ctx.txbuf) 0 fc
        buf ← put_regs buf 1 regs 0 0 2
        built_in ctx' buf 5

  -- FC 0C: 2 status + 2 count + 6 message bytes
  unfoldable pub respond_event_log : ℕ → Option (Reply W)
  unfolding after_read filled
  respond_event_log fc =
      after_read ctx ctx.callbacks.read_holding_registers_cb 0xfffc 5 λ ctx' values. do
        regs ← filled 5 values
        buf ← write (deref ctx.txbuf) 0 fc
        buf ← write buf 1 10
        buf ← put_regs buf 2 regs 0 0 5
        built_in ctx' buf (2 + 10)

  -- FC 11: the first register is the byte count.
  unfoldable pub respond_server_id : ℕ → Option (Reply W)
  unfolding after_read filled
  respond_server_id fc =
      after_read ctx ctx.callbacks.read_holding_registers_cb 0xfff0 64 λ ctx' values. do
        regs ← filled 64 values
        first ← get_elem? regs 0
        let asked = u8 (low_bits first 8)
        let byte_count = if ltb 126 asked then 126 else asked
        buf ← write (deref ctx.txbuf) 0 fc
        buf ← write buf 1 byte_count
        buf ← put_regs buf 2 regs 1 0 (min (u16 (byte_count + 1) / 2) 63)
        built_in ctx' buf (2 + byte_count)

  -- FC 18: the first register is the FIFO count.
  unfoldable pub respond_fifo : ℕ → Option (Reply W)
  unfolding after_read filled
  respond_fifo fc =
      after_read ctx ctx.callbacks.read_holding_registers_cb ctx.slave_addr 128 λ ctx' values. do
        fifo_data ← filled 128 values
        first ← get_elem? fifo_data 0
        let fifo_count = if ltb 127 first then 127 else first
        let byte_count = u16 (fifo_count * 2 + 2)
        buf ← write (deref ctx.txbuf) 0 fc
        buf ← put16 buf 1 byte_count
        buf ← put16 buf 3 fifo_count
        buf ← put_regs buf 5 fifo_data 1 0 fifo_count
        built_in ctx' buf (2 + byte_count)
