-- ===== src/Pdu/Respond/Safe.antt =====
-- `pa_modbus_slave_respond` of src/pdu.c and the bounds of its arrays.
use pamodbus.Common.{ℕ, ◌≤◌, ◌<◌, some, length, deref, ◌⊎◌, inl, inr}
use pamodbus.Common.{◌≡◌, arith, get_elem?-some, switch-labels, ◌&◌}
use pamodbus.Context.{Modbus, pa_err_protocol}
use pamodbus.Context.Valid.{Keeps}
use pamodbus.Pdu.Respond.{slave_respond, respond_cases}
use pamodbus.Pdu.Respond.Answer.{early}
use pamodbus.Pdu.Respond.Framed.{
  IsFramed, Answers, returns, send_reply-Keeps, moved, echo-Answers, after_write_one-Answers,
  after_write_many-Answers,
}
use pamodbus.Pdu.Respond.Served.{
  IsServed, respond_bits-Answers, respond_regs-Answers, respond_status-Answers,
  respond_event_counter-Answers, respond_event_log-Answers, respond_server_id-Answers,
}
use pamodbus.Pdu.Respond.Files.Safe.{respond_read_file-Answers, respond_write_file-Answers}
use pamodbus.Pdu.Respond.Combined.{
  respond_mask-Answers, respond_read_write-Answers, respond_fifo-Answers,
}
use pamodbus.Pdu.Respond.Write.{
  respond_write_coil, respond_write_register, respond_diagnostic, respond_write_coils,
  respond_write_registers,
}

module _ {W : Type 0} (ctx : Modbus W) (r : IsFramed ctx) where
  module _ (fc : ℕ) where
    respond_write_coil-Answers : Answers (respond_write_coil ctx fc)
    unfolding respond_write_coil
    respond_write_coil-Answers =
        let v = r.valid in
        let (coil, e) = get_elem?-some ctx.slave_coil_data 0 (omega arith) in
        rw e (
          after_write_one-Answers ctx r ctx.callbacks.write_single_coil_cb ctx.slave_addr coil _
            λ w. echo-Answers (record ctx { world = w }) (moved ctx r w) fc ctx.slave_addr _)

    respond_write_register-Answers : Answers (respond_write_register ctx fc)
    unfolding respond_write_register
    respond_write_register-Answers =
        let v = r.valid in
        let (value, e) = get_elem?-some ctx.slave_reg_data 0 (omega arith) in
        rw e (
          after_write_one-Answers ctx r ctx.callbacks.write_single_register_cb ctx.slave_addr value
            _ λ w. echo-Answers (record ctx { world = w }) (moved ctx r w) fc ctx.slave_addr value)

    respond_diagnostic-Answers : Answers (respond_diagnostic ctx fc)
    unfolding respond_diagnostic
    respond_diagnostic-Answers =
        let v = r.valid in
        let (value, e) = get_elem?-some ctx.slave_reg_data 0 (omega arith) in
        rw e (echo-Answers ctx r fc ctx.slave_addr value)

    respond_write_coils-Answers : Answers (respond_write_coils ctx fc)
    unfolding respond_write_coils
    respond_write_coils-Answers =
        after_write_many-Answers ctx r ctx.callbacks.write_multiple_coils_cb ctx.slave_addr
          ctx.slave_count ctx.slave_coil_data _
          λ w.
            echo-Answers (record ctx { world = w }) (moved ctx r w) fc ctx.slave_addr
              ctx.slave_count

    respond_write_registers-Answers : Answers (respond_write_registers ctx fc)
    unfolding respond_write_registers
    respond_write_registers-Answers =
        after_write_many-Answers ctx r ctx.callbacks.write_multiple_registers_cb ctx.slave_addr
          ctx.slave_count ctx.slave_reg_data _
          λ w.
            echo-Answers (record ctx { world = w }) (moved ctx r w) fc ctx.slave_addr
              ctx.slave_count

  -- What an answer is asked for that fits into the arrays; the answer to FC 18 has up to 259 bytes.
  pub record IsWithin : Type 0 where
    pub bits : ctx.last_function < 3 → ctx.slave_count ≤ 264
    pub regs :
        (ctx.last_function ≡ 3) ⊎ (ctx.last_function ≡ 4) ⊎ (ctx.last_function ≡ 0x17)
        → ctx.slave_count ≤ 125
    pub fifo : ctx.last_function ≡ 0x18 → 259 ≤ length (deref ctx.txbuf)
    pub file : ctx.last_function ≡ 0x15 → ctx.slave_reg_count ≤ 127

  -- An answer over RTU to any function code: with a transmit buffer of 256 bytes at least, of the
  -- size that is given, for reads of at most 264 coils or inputs, reads (FC 17 too) of at most 125
  -- registers, for FC 15 with at most 127 registers, and for FC 18 with a buffer of 259 bytes. The
  -- read callbacks store at most the registers, or the bytes with eight coils or inputs each, that
  -- are asked for, and fill all of them if they report success; one that fails may store less. It
  -- returns, so that no access is out of an array and no loop runs out of fuel, and leaves a
  -- valid context.
  pub slave_respond-Keeps : IsServed ctx → IsWithin → Keeps (slave_respond ctx)
  unfolding slave_respond
  slave_respond-Keeps served within =
      let fc = ctx.last_function in
      send_reply-Keeps (
        switch-labels Answers fc (respond_cases ctx fc) (some (early pa_err_protocol ctx))
          ((λ e. respond_bits-Answers ctx r fc _ served.coils (within.bits (omega arith)))
            & (λ e. respond_bits-Answers ctx r fc _ served.inputs (within.bits (omega arith)))
            & (λ e. respond_regs-Answers ctx r fc _ served.holding (within.regs (inl e)))
            & (λ e. respond_regs-Answers ctx r fc _ served.input_regs (within.regs (inr (inl e))))
            & (λ e. respond_write_coil-Answers fc)
            & (λ e. respond_write_register-Answers fc)
            & (λ e. respond_status-Answers ctx r fc served.coils)
            & (λ e. respond_diagnostic-Answers fc)
            & (λ e. respond_event_counter-Answers ctx r fc served.holding)
            & (λ e. respond_event_log-Answers ctx r fc served.holding)
            & (λ e. respond_write_coils-Answers fc)
            & (λ e. respond_write_registers-Answers fc)
            & (λ e. respond_server_id-Answers ctx r fc served.holding)
            & (λ e. respond_read_file-Answers ctx r fc served.holding)
            & (λ e. respond_write_file-Answers ctx r fc (within.file e))
            & (λ e. respond_mask-Answers ctx r fc served.holding)
            & (λ e. respond_read_write-Answers ctx r fc served.holding (within.regs (inr (inr e))))
            & (λ e. respond_fifo-Answers ctx r fc served.holding (within.fifo e))
            & tt)
          (returns r.valid))
