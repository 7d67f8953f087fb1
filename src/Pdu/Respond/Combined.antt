-- ===== src/Pdu/Respond/Combined.antt =====
-- `pa_modbus_slave_respond` of src/pdu.c: the cases that both read and write, and the bounds of
-- their arrays.
use pamodbus.Common.{ℕ, ◌+◌, ◌*◌, ◌≤◌, [], ◌∷◌, some}
use pamodbus.Common.{
  ◌≡◌, arith, ◌∙◌, length, get_elem?-some, store-some, ltb, is_zero, if◌then◌else◌, deref, u8, u16,
}
use pamodbus.Context.{Modbus, WriteOneFn}
use pamodbus.Pdu.Wire.Access.{put16-some, get16-some, put_regs-some}
use pamodbus.Pdu.Respond.Framed.{
  Answers-elim, IsFramed, Answers, answers, returns, Answers-when, moved, refilled,
  after_write_one-Answers, after_write_many-Answers,
}
use pamodbus.Pdu.Respond.Read.{respond_fifo}
use pamodbus.Pdu.Respond.Served.{Fills, filled-some, after_read-Answers}
use pamodbus.Pdu.Respond.Write.{
  mask_answer, mask_after_read, respond_mask, read_after_write, respond_read_write,
}

module _ {W : Type 0} (ctx : Modbus W) (r : IsFramed ctx) (fc : ℕ) where
  mask_answer-Answers :
      (w : W) (a o : ℕ) → Answers (mask_answer ctx (record ctx { world = w }) fc a o)
  unfolding mask_answer
  mask_answer-Answers w a o =
      let (b₁, e₁, l₁) = store-some (deref ctx.txbuf) 0 (fc ∷ []) (omega (arith, r.room)) in
      let (b₂, e₂, l₂) = put16-some b₁ 1 ctx.slave_addr (omega (arith, r.room)) in
      let (b₃, e₃, l₃) = put16-some b₂ 3 a (omega (arith, r.room)) in
      let (b₄, e₄, l₄) = put16-some b₃ 5 o (omega (arith, r.room)) in
      rw (e₁, e₂, e₃, e₄)
        (answers (refilled (record ctx { world = w }) (moved ctx r w) b₄ (l₄ ∙ l₃ ∙ l₂ ∙ l₁)))

  -- The register is read, changed by the masks and written.
  mask_after_read-Answers :
      (cb : WriteOneFn W) (a o : ℕ)
      → Fills (λ n. n) ctx.callbacks.read_holding_registers_cb
      → Answers (mask_after_read ctx cb fc a o)
  unfolding mask_after_read
  mask_after_read-Answers cb a o gives =
      Answers-elim (Fills (λ n. n)) ctx.callbacks.read_holding_registers_cb gives
        (mask_answer-Answers ctx.world a o)
        λ rcb fills.
          let vs = (rcb ctx.slave_addr 1 ctx.world).1 in
          let w = (rcb ctx.slave_addr 1 ctx.world).2 in
          Answers-when (is_zero (rcb ctx.slave_addr 1 ctx.world).0)
            (λ ok.
              let l : length vs ≡ 1 = (fills ctx.slave_addr 1 ctx.world).1 ok in
              let (cur, e₁) = get_elem?-some vs 0 (omega arith) in
              rw (filled-some 1 vs (omega arith), e₁)
                (after_write_one-Answers (record ctx { world = w }) (moved ctx r w) (some cb)
                  ctx.slave_addr _ (λ ctx''. mask_answer ctx ctx'' fc a o)
                  λ w'. mask_answer-Answers w' a o))
            (λ bad. mask_answer-Answers w a o)

  pub respond_mask-Answers :
      Fills (λ n. n) ctx.callbacks.read_holding_registers_cb → Answers (respond_mask ctx fc)
  unfolding respond_mask
  respond_mask-Answers gives =
      Answers-elim (λ o. Unit {0}) ctx.callbacks.write_single_register_cb tt (returns r.valid)
        λ cb _.
          let v = r.valid in
          let (a, e₁) = get_elem?-some ctx.slave_reg_data 0 (omega arith) in
          let (o, e₂) = get_elem?-some ctx.slave_reg_data 1 (omega arith) in
          rw (e₁, e₂) (mask_after_read-Answers cb a o gives)

  read_after_write-Answers :
      (w : W)
      → Fills (λ n. n) ctx.callbacks.read_holding_registers_cb
      → ctx.slave_count ≤ 125
      → Answers (read_after_write ctx (record ctx { world = w }) fc)
  unfolding read_after_write
  read_after_write-Answers w gives few =
      after_read-Answers (record ctx { world = w }) (moved ctx r w) (λ n. n)
        ctx.callbacks.read_holding_registers_cb ctx.slave_addr ctx.slave_count _ gives
        λ w' vs e.
          let n = u16 (ctx.slave_count * 2) in
          let (b₁, e₁, l₁) = store-some (deref ctx.txbuf) 0 (fc ∷ []) (omega (arith, r.room)) in
          let (b₂, e₂, l₂) = store-some b₁ 1 (u8 n ∷ []) (omega (arith, r.room)) in
          let (b₃, e₃, l₃) =
            put_regs-some b₂ 2 vs 0 0 ctx.slave_count (omega arith) (omega (arith, r.room)) in
          rw (filled-some 128 vs (omega arith), e₁, e₂, e₃)
            (answers (refilled (record ctx { world = w' }) (moved ctx r w') b₃ (l₃ ∙ l₂ ∙ l₁)))

  pub respond_read_write-Answers :
      Fills (λ n. n) ctx.callbacks.read_holding_registers_cb
      → ctx.slave_count ≤ 125
      → Answers (respond_read_write ctx fc)
  unfolding respond_read_write
  respond_read_write-Answers gives few =
      Answers-elim (λ o. Unit {0}) ctx.callbacks.read_holding_registers_cb tt (returns r.valid)
        λ rcb _.
          Answers-elim (λ o. Unit {0}) ctx.callbacks.write_multiple_registers_cb tt
            (returns r.valid)
            λ wcb _.
              let v = r.valid in
              let (a, e₁, s₁) = get16-some ctx.slave_coil_data 0 (omega arith) in
              let (n, e₂, s₂) = get16-some ctx.slave_coil_data 2 (omega arith) in
              rw (e₁, e₂)
                (after_write_many-Answers ctx r (some wcb) a n ctx.slave_reg_data
                  (λ ctx'. read_after_write ctx ctx' fc) λ w. read_after_write-Answers w gives few)

  pub respond_fifo-Answers :
      Fills (λ n. n) ctx.callbacks.read_holding_registers_cb
      → 259 ≤ length (deref ctx.txbuf)
      → Answers (respond_fifo ctx fc)
  unfolding respond_fifo
  respond_fifo-Answers gives large =
      after_read-Answers ctx r (λ n. n) ctx.callbacks.read_holding_registers_cb ctx.slave_addr 128 _
        gives
        λ w vs e.
          let (first, e₀) = get_elem?-some vs 0 (omega arith) in
          let n = if ltb 127 first then 127 else first in
          let few : n ≤ 127 = ground arith in
          let (b₁, e₁, l₁) = store-some (deref ctx.txbuf) 0 (fc ∷ []) (omega arith) in
          let (b₂, e₂, l₂) = put16-some b₁ 1 (u16 (n * 2 + 2)) (omega arith) in
          let (b₃, e₃, l₃) = put16-some b₂ 3 n (omega arith) in
          let (b₄, e₄, l₄) = put_regs-some b₃ 5 vs 1 0 n (omega arith) (omega arith) in
          rw (filled-some 128 vs (omega arith), e₀, e₁, e₂, e₃, e₄)
            (answers (refilled (record ctx { world = w }) (moved ctx r w) b₄ (l₄ ∙ l₃ ∙ l₂ ∙ l₁)))
