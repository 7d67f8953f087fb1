-- ===== src/Pdu/Slave/Safe.antt =====
-- `parse_slave_request` of src/pdu.c and the bounds of the arrays.
use pamodbus.Common.{ℕ, ◌+◌, ◌/◌, ◌≤◌, List, [], ◌∷◌, some}
use pamodbus.Common.{arith, ltb, length, get_elem?-some, load-some, store-some, ◌||◌}
use pamodbus.Common.{switch, bit_and, not, ◌==◌, switch-all, ◌&◌, u16}
use pamodbus.Context.{Modbus, coil_bytes, reg_words, pa_err_protocol}
use pamodbus.Context.Valid.{IsValid, Keeps, keeps, Keeps-if, Keeps-bind}
use pamodbus.Pdu.Wire.Access.{get16-some, get_regs-some}
use pamodbus.Pdu.Slave.{read_request, write_coil_request, write_register_request, plain_request}
use pamodbus.Pdu.Slave.{diagnostic_request, write_coils_request, write_registers_request}
use pamodbus.Pdu.Slave.{file_record_request, mask_request, read_write_data, read_write_request}
use pamodbus.Pdu.Slave.{fifo_request, request_cases, parse_slave_request}

module _ {W : Type 0} (ctx : Modbus W) (v : IsValid ctx) (pdu : List ℕ) (pdu_len : ℕ)
    (fits : pdu_len ≤ length pdu) where
  read_request-Keeps : (limit : ℕ) → Keeps (read_request ctx pdu pdu_len limit)
  unfolding read_request
  read_request-Keeps limit =
      Keeps-if (ltb pdu_len 5) (λ p. keeps v)
        λ p.
          let (a, ea, ba) = get16-some pdu 1 (ground arith) in
          let (c, ec, bc) = get16-some pdu 3 (ground arith) in
          Keeps-bind _ ea (
            Keeps-bind _ ec (
              Keeps-if (ltb c 1 || ltb limit c) (λ q. keeps (omega arith))
                (λ q. keeps (omega arith))))

  write_coil_request-Keeps : Keeps (write_coil_request ctx pdu pdu_len)
  unfolding write_coil_request
  write_coil_request-Keeps =
      Keeps-if (ltb pdu_len 5) (λ p. keeps v)
        λ p.
          let (a, ea, ba) = get16-some pdu 1 (ground arith) in
          let (c, ec, bc) = get16-some pdu 3 (ground arith) in
          let (s, es, ls) = store-some ctx.slave_coil_data 0 (_ ∷ []) (omega arith) in
          Keeps-bind _ ea (Keeps-bind _ ec (Keeps-bind _ es (keeps (omega arith))))

  write_register_request-Keeps : Keeps (write_register_request ctx pdu pdu_len)
  unfolding write_register_request
  write_register_request-Keeps =
      Keeps-if (ltb pdu_len 5) (λ p. keeps v)
        λ p.
          let (a, ea, ba) = get16-some pdu 1 (ground arith) in
          let (c, ec, bc) = get16-some pdu 3 (ground arith) in
          let (s, es, ls) = store-some ctx.slave_reg_data 0 (c ∷ []) (omega arith) in
          Keeps-bind _ ea (Keeps-bind _ ec (Keeps-bind _ es (keeps (omega arith))))

  plain_request-Keeps : Keeps (plain_request ctx pdu pdu_len)
  unfolding plain_request
  plain_request-Keeps = Keeps-if (ltb pdu_len 1) (λ p. keeps v) (λ p. keeps (omega arith))

  diagnostic_request-Keeps : Keeps (diagnostic_request ctx pdu pdu_len)
  unfolding diagnostic_request
  diagnostic_request-Keeps =
      Keeps-if (ltb pdu_len 5) (λ p. keeps v)
        λ p.
          let (a, ea, ba) = get16-some pdu 1 (ground arith) in
          let (c, ec, bc) = get16-some pdu 3 (ground arith) in
          let (s, es, ls) = store-some ctx.slave_reg_data 0 (c ∷ []) (omega arith) in
          Keeps-bind _ ea (Keeps-bind _ ec (Keeps-bind _ es (keeps (omega arith))))

  write_coils_request-Keeps : Keeps (write_coils_request ctx pdu pdu_len)
  unfolding write_coils_request
  write_coils_request-Keeps =
      Keeps-if (ltb pdu_len 6) (λ p. keeps v)
        λ p.
          let (a, ea, ba) = get16-some pdu 1 (ground arith) in
          let (c, ec, bc) = get16-some pdu 3 (ground arith) in
          let (n, en) = get_elem?-some pdu 5 (ground arith) in
          Keeps-bind _ ea (
            Keeps-bind _ ec (
              Keeps-if (ltb c 1 || ltb 1968 c) (λ q. keeps (omega arith))
                λ q. Keeps-bind _ en (
                  Keeps-if (ltb pdu_len (6 + n)) (λ r. keeps (omega arith))
                    λ r.
                      Keeps-if (ltb coil_bytes n) (λ t. keeps (omega arith))
                        λ t.
                          let (xs, ex, lx) = load-some pdu 6 n (ground arith) in
                          let (s, es, ls) = store-some ctx.slave_coil_data 0 xs (ground arith) in
                          Keeps-bind _ ex (Keeps-bind _ es (keeps (omega arith))))))

  write_registers_request-Keeps : Keeps (write_registers_request ctx pdu pdu_len)
  unfolding write_registers_request
  write_registers_request-Keeps =
      Keeps-if (ltb pdu_len 6) (λ p. keeps v)
        λ p.
          let (a, ea, ba) = get16-some pdu 1 (ground arith) in
          let (c, ec, bc) = get16-some pdu 3 (ground arith) in
          let (n, en) = get_elem?-some pdu 5 (ground arith) in
          Keeps-bind _ ea (
            Keeps-bind _ ec (
              Keeps-if (ltb c 1 || ltb 123 c) (λ q. keeps (omega arith))
                λ q. Keeps-bind _ en (
                  Keeps-if (ltb pdu_len (6 + n)) (λ r. keeps (omega arith))
                    λ r.
                      Keeps-if (ltb reg_words (u16 (n / 2))) (λ t. keeps (omega arith))
                        λ t.
                          let (xs, ex, lx) =
                            get_regs-some ctx.slave_reg_data pdu 6 0 (u16 (n / 2)) (ground arith)
                              (ground arith) in
                          Keeps-bind _ ex (keeps (ground arith)))))

  file_record_request-Keeps : Keeps (file_record_request ctx pdu pdu_len)
  unfolding file_record_request
  file_record_request-Keeps =
      Keeps-if (ltb pdu_len 2) (λ p. keeps v)
        λ p.
          let (n, en) = get_elem?-some pdu 1 (ground arith) in
          Keeps-bind _ en (
            Keeps-if (ltb pdu_len (2 + n)) (λ q. keeps v)
              λ q.
                Keeps-if (ltb reg_words (u16 (n / 2))) (λ t. keeps (omega arith))
                  λ t.
                    let (xs, ex, lx) =
                      get_regs-some ctx.slave_reg_data pdu 2 0 (u16 (n / 2)) (ground arith)
                        (ground arith) in
                    Keeps-bind _ ex (keeps (ground arith)))

  mask_request-Keeps : Keeps (mask_request ctx pdu pdu_len)
  unfolding mask_request
  mask_request-Keeps =
      Keeps-if (ltb pdu_len 7) (λ p. keeps v)
        λ p.
          let (a, ea, ba) = get16-some pdu 1 (ground arith) in
          let (x, ex, bx) = get16-some pdu 3 (ground arith) in
          let (s, es, ls) = store-some ctx.slave_reg_data 0 (x ∷ []) (omega arith) in
          let (y, ey, by) = get16-some pdu 5 (ground arith) in
          let (t, et, lt) = store-some s 1 (y ∷ []) (omega arith) in
          Keeps-bind _ ea (
            Keeps-bind _ ex
              (Keeps-bind _ es (Keeps-bind _ ey (Keeps-bind _ et (keeps (omega arith))))))

  read_write_data-Keeps :
      (ra rc wa wc n : ℕ) → Keeps (read_write_data ctx pdu pdu_len ra rc wa wc n)
  unfolding read_write_data
  read_write_data-Keeps ra rc wa wc n =
      Keeps-if (ltb pdu_len (10 + n)) (λ p. keeps v)
        λ p.
          Keeps-if (ltb reg_words (u16 (n / 2))) (λ q. keeps (omega arith))
            λ q.
              let (c0, e0, l0) = store-some ctx.slave_coil_data 0 (_ ∷ []) (omega arith) in
              let (c1, e1, l1) = store-some c0 1 (_ ∷ []) (omega arith) in
              let (c2, e2, l2) = store-some c1 2 (_ ∷ []) (omega arith) in
              let (c3, e3, l3) = store-some c2 3 (_ ∷ []) (omega arith) in
              let (xs, ex, lx) =
                get_regs-some ctx.slave_reg_data pdu 10 0 (u16 (n / 2)) (ground arith)
                  (ground arith) in
              Keeps-bind _ e0 (
                Keeps-bind _ e1
                  (Keeps-bind _ e2 (Keeps-bind _ e3 (Keeps-bind _ ex (keeps (ground arith))))))

  read_write_request-Keeps : Keeps (read_write_request ctx pdu pdu_len)
  unfolding read_write_request
  read_write_request-Keeps =
      Keeps-if (ltb pdu_len 11) (λ p. keeps v)
        λ p.
          let (a, ea, ba) = get16-some pdu 1 (ground arith) in
          let (b, eb, bb) = get16-some pdu 3 (ground arith) in
          let (c, ec, bc) = get16-some pdu 5 (ground arith) in
          let (d, ed, bd) = get16-some pdu 7 (ground arith) in
          let (n, en) = get_elem?-some pdu 9 (ground arith) in
          Keeps-bind _ ea (
            Keeps-bind _ eb (
              Keeps-bind _ ec (
                Keeps-bind _ ed (
                  Keeps-if (ltb b 1 || ltb 125 b) (λ q. keeps v)
                    λ q.
                      Keeps-if (ltb d 1 || ltb 121 d) (λ r. keeps v)
                        λ r. Keeps-bind _ en (read_write_data-Keeps a b c d n)))))

  fifo_request-Keeps : Keeps (fifo_request ctx pdu pdu_len)
  unfolding fifo_request
  fifo_request-Keeps =
      Keeps-if (ltb pdu_len 3) (λ p. keeps v)
        λ p.
          let (a, ea, ba) = get16-some pdu 1 (ground arith) in Keeps-bind _ ea (keeps (omega arith))

  request_switch-Keeps :
      (fc : ℕ) → Keeps (switch fc (request_cases ctx pdu pdu_len) (some (pa_err_protocol, ctx)))
  request_switch-Keeps fc =
      switch-all Keeps fc (request_cases ctx pdu pdu_len) (some (pa_err_protocol, ctx))
        (read_request-Keeps 2000
          & read_request-Keeps 2000
          & read_request-Keeps 125
          & read_request-Keeps 125
          & write_coil_request-Keeps
          & write_register_request-Keeps
          & plain_request-Keeps
          & diagnostic_request-Keeps
          & plain_request-Keeps
          & plain_request-Keeps
          & write_coils_request-Keeps
          & write_registers_request-Keeps
          & plain_request-Keeps
          & file_record_request-Keeps
          & file_record_request-Keeps
          & mask_request-Keeps
          & read_write_request-Keeps
          & fifo_request-Keeps
          & tt)
        (keeps v)

-- The slave's parser makes no access outside an array, whatever the PDU is, if the memory behind
-- `pdu` has the length that is given; it returns, and leaves the context valid.
pub parse_slave_request-Keeps :
    {W : Type 0} (ctx : Modbus W) (pdu : List ℕ) (pdu_len : ℕ)
    → IsValid ctx
    → pdu_len ≤ length pdu
    → Keeps (parse_slave_request ctx pdu pdu_len)
unfolding parse_slave_request
parse_slave_request-Keeps ctx pdu pdu_len v fits =
    Keeps-if (ltb pdu_len 1) (λ p. keeps v)
      λ p.
        let (fc, e) = get_elem?-some pdu 0 (ground arith) in
        let ctx' = record ctx { last_function = fc; slave_data_valid = 0 } in
        let v' : IsValid ctx' = omega arith in
        Keeps-bind _ e (
          Keeps-if (not (bit_and fc 0x80 == 0)) (λ q. keeps v')
            λ q. request_switch-Keeps ctx' v' pdu pdu_len fits fc)
