-- ===== src/Pdu/Slave/Request.antt =====
-- What `parse_slave_request` makes of the requests that the builders write.
use pamodbus.Common.{ℕ, ◌+◌, ◌*◌, ◌/◌, ◌%◌, ◌^◌, ◌≤◌, ◌<◌, List, [], ◌∷◌, ◌++◌, some, false}
use pamodbus.Common.{◌≡◌, refl, arith, length, ltb, u16}
use pamodbus.Context.{Modbus, reg_words, pa_ok}
use pamodbus.Pdu.Wire.{get16, get_regs}
use pamodbus.Pdu.Wire.Layout.{regs_bytes, IsWords, get16-be16, get_regs-bytes, write-append}
use pamodbus.Pdu.Build.Payload.{fixed_pdu, registers_pdu}
use pamodbus.Pdu.Slave.{
  read_request, write_register_request, write_registers_request, parse_slave_request,
}

module _ {W : Type 0} (ctx : Modbus W) where
  -- A write of registers (FC 10): the registers are put at the front of the register data.
  pub parse_slave_request-registers :
      (addr : ℕ) (vs old rest tail : List ℕ)
      → addr < 2 ^ 16
      → IsWords vs
      → 1 ≤ length vs
      → length vs ≤ 123
      → ctx.slave_reg_data ≡ old ++ rest
      → length old ≡ length vs
      → parse_slave_request ctx (registers_pdu addr vs ++ tail) (6 + length vs * 2)
        ≡ some (
          pa_ok,
          record ctx {
            last_function = 0x10;
            slave_addr = addr;
            slave_count = length vs;
            slave_reg_count = length vs;
            slave_reg_data = vs ++ rest;
            slave_data_valid = 1;
          },
        )
  unfolding parse_slave_request write_registers_request
  parse_slave_request-registers addr vs old rest tail ha words low high holds same =
      let n = length vs in
      let pdu = registers_pdu addr vs ++ tail in
      let g0 : ltb (6 + n * 2) 1 ≡ false = ground arith in
      let g1 : ltb (6 + n * 2) 6 ≡ false = ground arith in
      let g2 : ltb n 1 ≡ false = ground arith in
      let g3 : ltb 123 n ≡ false = ground arith in
      let g4 : ltb (6 + n * 2) (6 + n * 2) ≡ false = ground arith in
      let g5 : ltb reg_words n ≡ false = ground arith in
      let half : u16 (n * 2 / 2) ≡ n = omega arith in
      let body = regs_bytes vs ++ tail in
      let at_addr : get16 pdu 1 ≡ some addr =
        get16-be16 (0x10 ∷ []) (n / 256 ∷ n % 256 ∷ n * 2 ∷ body) 1 addr ha refl in
      let at_count : get16 pdu 3 ≡ some n =
        get16-be16 (0x10 ∷ addr / 256 ∷ addr % 256 ∷ []) (n * 2 ∷ body) 3 n (omega arith) refl in
      let head = 0x10 ∷ addr / 256 ∷ addr % 256 ∷ n / 256 ∷ n % 256 ∷ n * 2 ∷ [] in
      let values : get_regs (old ++ rest) pdu 6 0 n ≡ some (vs ++ rest) =
        get_regs-bytes vs old [] rest head tail 6 0 words same refl refl in
      rw (g0, g1, at_addr, at_count, g2, g3, g4, half, g5, holds, values) refl

  -- A write of one register (FC 06).
  pub parse_slave_request-register :
      (addr v old : ℕ) (rest tail : List ℕ)
      → addr < 2 ^ 16
      → v < 2 ^ 16
      → ctx.slave_reg_data ≡ old ∷ rest
      → parse_slave_request ctx (fixed_pdu 6 addr v ++ tail) 5
        ≡ some (
          pa_ok,
          record ctx {
            last_function = 6;
            slave_addr = addr;
            slave_count = 1;
            slave_reg_count = 1;
            slave_reg_data = v ∷ rest;
            slave_data_valid = 1;
          },
        )
  unfolding parse_slave_request write_register_request
  parse_slave_request-register addr v old rest tail ha hv holds =
      let pdu = fixed_pdu 6 addr v ++ tail in
      let at_addr : get16 pdu 1 ≡ some addr =
        get16-be16 (6 ∷ []) (v / 256 ∷ v % 256 ∷ tail) 1 addr ha refl in
      let at_value : get16 pdu 3 ≡ some v =
        get16-be16 (6 ∷ addr / 256 ∷ addr % 256 ∷ []) tail 3 v hv refl in
      rw (at_addr, at_value, holds, write-append [] rest 0 old v refl) refl

  -- A read of holding registers (FC 03).
  pub parse_slave_request-read :
      (addr v : ℕ) (tail : List ℕ)
      → addr < 2 ^ 16
      → 1 ≤ v
      → v ≤ 125
      → parse_slave_request ctx (fixed_pdu 3 addr v ++ tail) 5
        ≡ some (
          pa_ok,
          record ctx {
            last_function = 3;
            slave_addr = addr;
            slave_count = v;
            slave_data_valid = 0;
          },
        )
  unfolding parse_slave_request read_request
  parse_slave_request-read addr v tail ha low high =
      let pdu = fixed_pdu 3 addr v ++ tail in
      let at_addr : get16 pdu 1 ≡ some addr =
        get16-be16 (3 ∷ []) (v / 256 ∷ v % 256 ∷ tail) 1 addr ha refl in
      let at_value : get16 pdu 3 ≡ some v =
        get16-be16 (3 ∷ addr / 256 ∷ addr % 256 ∷ []) tail 3 v (omega arith) refl in
      let g2 : ltb v 1 ≡ false = ground arith in
      let g3 : ltb 125 v ≡ false = ground arith in rw (at_addr, at_value, g2, g3) refl
