-- ===== src/Pdu/Master/Response.antt =====
-- What `parse_master_response` makes of a response with registers.
use pamodbus.Common.{ℕ, ◌+◌, ◌*◌, ◌/◌, ◌≤◌, List, [], ◌∷◌, ◌++◌, some, false}
use pamodbus.Common.{◌≡◌, refl, arith, length, ltb, u16}
use pamodbus.Context.{Modbus, reg_words, pa_ok}
use pamodbus.Pdu.Wire.{get_regs}
use pamodbus.Pdu.Wire.Layout.{regs_bytes, IsWords, get_regs-bytes}
use pamodbus.Pdu.Master.{regs_response, clear_response, parse_master_response}

-- The PDU of a response with registers: the count of bytes, and the registers.
abbrev pub answer_pdu : ℕ → List ℕ → List ℕ
answer_pdu fc vs = fc ∷ length vs * 2 ∷ regs_bytes vs

module _ {W : Type 0} (ctx : Modbus W) where
  pub parse_master_response-registers :
      (vs old rest tail : List ℕ)
      → IsWords vs
      → length vs ≤ 125
      → ctx.last_reg_data ≡ old ++ rest
      → length old ≡ length vs
      → parse_master_response ctx (answer_pdu 3 vs ++ tail) (2 + length vs * 2)
        ≡ some (
          pa_ok,
          record ctx {
            last_function = 3;
            last_error = pa_ok;
            last_exception = 0;
            last_coil_count = 0;
            last_reg_count = length vs;
            last_reg_data = vs ++ rest;
          },
        )
  unfolding parse_master_response regs_response clear_response
  parse_master_response-registers vs old rest tail words high holds same =
      let n = length vs in
      let pdu = answer_pdu 3 vs ++ tail in
      let g0 : ltb (2 + n * 2) 1 ≡ false = ground arith in
      let g1 : ltb (2 + n * 2) 2 ≡ false = ground arith in
      let g2 : ltb (2 + n * 2) (2 + n * 2) ≡ false = ground arith in
      let g3 : ltb reg_words (n * 2 / 2) ≡ false = ground arith in
      let half : u16 (n * 2 / 2) ≡ n = omega arith in
      let values : get_regs (old ++ rest) pdu 2 0 n ≡ some (vs ++ rest) =
        get_regs-bytes vs old [] rest (3 ∷ n * 2 ∷ []) tail 2 0 words same refl refl in
      rw (g0, g1, g2, g3, half, holds, values) refl
