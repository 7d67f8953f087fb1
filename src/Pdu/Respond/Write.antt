-- ===== src/Pdu/Respond/Write.antt =====
-- `pa_modbus_slave_respond` of src/pdu.c: the cases that write coils or registers, and FC 08.
use pamodbus.Common.{ℕ, ◌+◌, ◌*◌, Option, none, some, bit_and, bit_or}
use pamodbus.Common.{◌==◌, if◌then◌else◌, is_zero, u8, u16, deref, get_elem?, write, ◌>>=◌}
use pamodbus.Context.{Modbus, WriteOneFn, pa_err_state}
use pamodbus.Pdu.Wire.{put16, put_regs, get16}
use pamodbus.Pdu.Respond.Answer.{
  Reply, early, filled, after_read, after_write_one, after_write_many, built_in,
}

module _ {W : Type 0} (ctx : Modbus W) where
  -- `txbuf` is the function code and two 16-bit numbers.
  unfoldable pub echo : ℕ → ℕ → ℕ → Option (Reply W)
  echo fc a b = do
    buf ← write (deref ctx.txbuf) 0 fc
    buf ← put16 buf 1 a
    buf ← put16 buf 3 b
    built_in ctx buf 5

-- The two numbers are those of the context from before the callback, which changes the world only.
module _ {W : Type 0} (ctx : Modbus W) where
  -- FC 05
  unfoldable pub respond_write_coil : ℕ → Option (Reply W)
  unfolding after_write_one echo
  respond_write_coil fc = do
    coil ← get_elem? ctx.slave_coil_data 0
    after_write_one ctx ctx.callbacks.write_single_coil_cb ctx.slave_addr coil
        λ ctx'. echo ctx' fc ctx.slave_addr (if coil == 0 then 0x0000 else 0xff00)

  -- FC 06
  unfoldable pub respond_write_register : ℕ → Option (Reply W)
  unfolding after_write_one echo
  respond_write_register fc = do
    value ← get_elem? ctx.slave_reg_data 0
    after_write_one ctx ctx.callbacks.write_single_register_cb ctx.slave_addr value
        λ ctx'. echo ctx' fc ctx.slave_addr value

  -- FC 08
  unfoldable pub respond_diagnostic : ℕ → Option (Reply W)
  unfolding echo
  respond_diagnostic fc = do
    value ← get_elem? ctx.slave_reg_data 0
    echo ctx fc ctx.slave_addr value

  -- FC 0F
  unfoldable pub respond_write_coils : ℕ → Option (Reply W)
  unfolding after_write_many echo
  respond_write_coils fc =
      after_write_many ctx ctx.callbacks.write_multiple_coils_cb ctx.slave_addr ctx.slave_count
        ctx.slave_coil_data λ ctx'. echo ctx' fc ctx.slave_addr ctx.slave_count

  -- FC 10
  unfoldable pub respond_write_registers : ℕ → Option (Reply W)
  unfolding after_write_many echo
  respond_write_registers fc =
      after_write_many ctx ctx.callbacks.write_multiple_registers_cb ctx.slave_addr ctx.slave_count
        ctx.slave_reg_data λ ctx'. echo ctx' fc ctx.slave_addr ctx.slave_count

  -- FC 16: the answer, once the register is written or left alone
  unfoldable pub mask_answer : Modbus W → ℕ → ℕ → ℕ → Option (Reply W)
  mask_answer ctx' fc and_mask or_mask = do
    buf ← write (deref ctx.txbuf) 0 fc
    buf ← put16 buf 1 ctx.slave_addr
    buf ← put16 buf 3 and_mask
    buf ← put16 buf 5 or_mask
    built_in ctx' buf 7

  -- FC 16: what follows the read of the current value
  unfoldable pub mask_after_read : WriteOneFn W → ℕ → ℕ → ℕ → Option (Reply W)
  unfolding mask_answer after_write_one
  mask_after_read cb fc and_mask or_mask = elim ctx.callbacks.read_holding_registers_cb [
    | none ↦ mask_answer ctx fc and_mask or_mask
    | some rcb ↦
        let (ret, values, w) = rcb ctx.slave_addr 1 ctx.world in
        let ctx' = record ctx { world = w } in
        if is_zero ret
        then (do
          cur ← filled 1 values
          cur_val ← get_elem? cur 0
          after_write_one ctx' (some cb) ctx.slave_addr
              (u16 (bit_or (bit_and cur_val and_mask) or_mask))
              λ ctx''. mask_answer ctx'' fc and_mask or_mask)
        else mask_answer ctx' fc and_mask or_mask
  ]

  unfoldable pub respond_mask : ℕ → Option (Reply W)
  unfolding mask_after_read
  respond_mask fc = elim ctx.callbacks.write_single_register_cb [
    | none ↦ some (early pa_err_state ctx)
    | some cb ↦ do
      and_mask ← get_elem? ctx.slave_reg_data 0
      or_mask ← get_elem? ctx.slave_reg_data 1
      mask_after_read cb fc and_mask or_mask
  ]

  -- FC 17: write first, then read
  unfoldable pub read_after_write : Modbus W → ℕ → Option (Reply W)
  unfolding after_read filled
  read_after_write ctx' fc =
      let read_count = ctx.slave_count in
      let byte_count = u16 (read_count * 2) in
      after_read ctx' ctx.callbacks.read_holding_registers_cb ctx.slave_addr read_count
        λ ctx'' values. do
          reg_data ← filled 128 values
          buf ← write (deref ctx.txbuf) 0 fc
          buf ← write buf 1 (u8 byte_count)
          buf ← put_regs buf 2 reg_data 0 0 read_count
          built_in ctx'' buf (2 + byte_count)

  unfoldable pub respond_read_write : ℕ → Option (Reply W)
  unfolding read_after_write after_write_many
  respond_read_write fc = elim ctx.callbacks.read_holding_registers_cb [
    | none ↦ some (early pa_err_state ctx)
    | some rcb ↦ elim ctx.callbacks.write_multiple_registers_cb [
      | none ↦ some (early pa_err_state ctx)
      | some wcb ↦ do
        write_addr ← get16 ctx.slave_coil_data 0
        write_count ← get16 ctx.slave_coil_data 2
        after_write_many ctx (some wcb) write_addr write_count ctx.slave_reg_data
            λ ctx'. read_after_write ctx' fc
    ]
  ]
