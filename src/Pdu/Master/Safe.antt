-- ===== src/Pdu/Master/Safe.antt =====
-- `parse_master_response` of src/pdu.c and the bounds of the arrays.
use pamodbus.Common.{ℕ, ◌+◌, ◌-◌, ◌/◌, ◌≤◌, List, [], ◌∷◌, some}
use pamodbus.Common.{arith, ltb, leb, length, get_elem?-some, load-some, store-some, min}
use pamodbus.Common.{switch, bit_and, not, ◌==◌, switch-all, ◌&◌, u16}
use pamodbus.Context.{Modbus, coil_bytes, reg_words, pa_err_protocol}
use pamodbus.Context.Valid.{IsValid, Keeps, keeps, Keeps-if, Keeps-bind}
use pamodbus.Pdu.Wire.Access.{get16-some, get_regs-some}
use pamodbus.Pdu.Master.{bits_response, regs_response, echo_response}
use pamodbus.Pdu.Master.{status_response, diagnostic_response, event_counter_response, event_log}
use pamodbus.Pdu.Master.{event_log_response, server_id_response, record_response}
use pamodbus.Pdu.Master.{write_record_response, mask_response, fifo_response, response_cases}
use pamodbus.Pdu.Master.{exception_response, clear_response, parse_master_response}
use pamodbus.Pdu.Master.Padded.{padded_regs-some}

module _ {W : Type 0} (ctx : Modbus W) (v : IsValid ctx) (pdu : List ℕ) (pdu_len : ℕ)
    (fits : pdu_len + 1 ≤ length pdu) where
  bits_response-Keeps : Keeps (bits_response ctx pdu pdu_len)
  unfolding bits_response
  bits_response-Keeps =
      Keeps-if (ltb pdu_len 2) (λ p. keeps v)
        λ p.
          let (n, en) = get_elem?-some pdu 1 (ground arith) in
          Keeps-bind _ en (
            Keeps-if (ltb pdu_len (2 + n)) (λ q. keeps v)
              λ q.
                Keeps-if (ltb coil_bytes n) (λ r. keeps v)
                  λ r.
                    let (xs, ex, lx) = load-some pdu 2 n (ground arith) in
                    let (s, es, ls) = store-some ctx.last_coil_data 0 xs (ground arith) in
                    Keeps-bind _ ex (Keeps-bind _ es (keeps (ground arith))))

  regs_response-Keeps : Keeps (regs_response ctx pdu pdu_len)
  unfolding regs_response
  regs_response-Keeps =
      Keeps-if (ltb pdu_len 2) (λ p. keeps v)
        λ p.
          let (n, en) = get_elem?-some pdu 1 (ground arith) in
          Keeps-bind _ en (
            Keeps-if (ltb pdu_len (2 + n)) (λ q. keeps v)
              λ q.
                Keeps-if (ltb reg_words (n / 2)) (λ r. keeps v)
                  λ r.
                    let (xs, ex, lx) =
                      get_regs-some ctx.last_reg_data pdu 2 0 (u16 (n / 2)) (ground arith)
                        (ground arith) in
                    Keeps-bind _ ex (keeps (ground arith)))

  echo_response-Keeps : Keeps (echo_response ctx pdu pdu_len)
  unfolding echo_response
  echo_response-Keeps = Keeps-if (ltb pdu_len 5) (λ p. keeps v) (λ p. keeps v)

  status_response-Keeps : Keeps (status_response ctx pdu pdu_len)
  unfolding status_response
  status_response-Keeps =
      Keeps-if (ltb pdu_len 2) (λ p. keeps v)
        λ p.
          let (n, en) = get_elem?-some pdu 1 (ground arith) in
          let (s, es, ls) = store-some ctx.last_coil_data 0 (n ∷ []) (omega arith) in
          Keeps-bind _ en (Keeps-bind _ es (keeps (omega arith)))

  diagnostic_response-Keeps : Keeps (diagnostic_response ctx pdu pdu_len)
  unfolding diagnostic_response
  diagnostic_response-Keeps =
      Keeps-if (ltb pdu_len 5) (λ p. keeps v)
        λ p.
          let (a, ea, ba) = get16-some pdu 3 (ground arith) in
          let (s, es, ls) = store-some ctx.last_reg_data 0 (a ∷ []) (omega arith) in
          Keeps-bind _ ea (Keeps-bind _ es (keeps (omega arith)))

  event_counter_response-Keeps : Keeps (event_counter_response ctx pdu pdu_len)
  unfolding event_counter_response
  event_counter_response-Keeps =
      Keeps-if (ltb pdu_len 5) (λ p. keeps v)
        λ p.
          let (a, ea, ba) = get16-some pdu 1 (ground arith) in
          let (s, es, ls) = store-some ctx.last_reg_data 0 (a ∷ []) (omega arith) in
          let (b, eb, bb) = get16-some pdu 3 (ground arith) in
          let (t, et, lt) = store-some s 1 (b ∷ []) (omega arith) in
          Keeps-bind _ ea
            (Keeps-bind _ es (Keeps-bind _ eb (Keeps-bind _ et (keeps (omega arith)))))

  event_log-Keeps : (n : ℕ) → 4 ≤ n → 2 + n ≤ pdu_len → Keeps (event_log ctx pdu pdu_len n)
  unfolding event_log
  event_log-Keeps n four room =
      let (a, ea, ba) = get16-some pdu 2 (omega arith) in
      let (s, es, ls) = store-some ctx.last_reg_data 0 (a ∷ []) (omega arith) in
      let (b, eb, bb) = get16-some pdu 4 (omega arith) in
      let (t, et, lt) = store-some s 1 (b ∷ []) (omega arith) in
      let (xs, ex, lx) = load-some pdu 6 (min (n - 4) coil_bytes) (omega arith) in
      let (u, eu, lu) = store-some ctx.last_coil_data 0 xs (omega arith) in
      Keeps-bind _ ea (
        Keeps-bind _ es (
          Keeps-bind _ eb
            (Keeps-bind _ et (Keeps-bind _ ex (Keeps-bind _ eu (keeps (omega arith)))))))

  event_log_response-Keeps : Keeps (event_log_response ctx pdu pdu_len)
  unfolding event_log_response
  event_log_response-Keeps =
      Keeps-if (ltb pdu_len 2) (λ p. keeps v)
        λ p.
          let (n, en) = get_elem?-some pdu 1 (ground arith) in
          Keeps-bind _ en (
            Keeps-if (ltb pdu_len (2 + n)) (λ q. keeps v)
              λ q.
                Keeps-if (leb 4 n) (λ r. event_log-Keeps n (ground arith) (ground arith))
                  (λ r. keeps v))

  server_id_response-Keeps : Keeps (server_id_response ctx pdu pdu_len)
  unfolding server_id_response
  server_id_response-Keeps =
      Keeps-if (ltb pdu_len 2) (λ p. keeps v)
        λ p.
          let (n, en) = get_elem?-some pdu 1 (ground arith) in
          Keeps-bind _ en (
            Keeps-if (ltb pdu_len (2 + n)) (λ q. keeps v)
              λ q.
                let (xs, ex, lx) =
                  padded_regs-some ctx.last_reg_data pdu n 0 (min (u16 ((n + 1) / 2)) reg_words)
                    (ground arith) (omega arith) (omega arith) in
                Keeps-bind _ ex (keeps (omega arith)))

  record_response-Keeps : Keeps (record_response ctx pdu pdu_len)
  unfolding record_response
  record_response-Keeps =
      Keeps-if (ltb pdu_len 2) (λ p. keeps v)
        λ p.
          let (n, en) = get_elem?-some pdu 1 (ground arith) in
          Keeps-bind _ en (
            Keeps-if (ltb pdu_len (2 + n)) (λ q. keeps v)
              λ q.
                let (xs, ex, lx) =
                  get_regs-some ctx.last_reg_data pdu 2 0 (min (u16 (n / 2)) reg_words)
                    (omega arith) (ground arith) in
                Keeps-bind _ ex (keeps (omega arith)))

  write_record_response-Keeps : Keeps (write_record_response ctx pdu pdu_len)
  unfolding write_record_response
  write_record_response-Keeps =
      Keeps-if (ltb pdu_len 2) (λ p. keeps v)
        λ p.
          let (n, en) = get_elem?-some pdu 1 (ground arith) in
          Keeps-bind _ en (Keeps-if (ltb pdu_len (2 + n)) (λ q. keeps v) (λ q. keeps v))

  mask_response-Keeps : Keeps (mask_response ctx pdu pdu_len)
  unfolding mask_response
  mask_response-Keeps =
      Keeps-if (ltb pdu_len 7) (λ p. keeps v)
        λ p.
          let (a, ea, ba) = get16-some pdu 1 (ground arith) in
          let (s, es, ls) = store-some ctx.last_reg_data 0 (a ∷ []) (omega arith) in
          let (b, eb, bb) = get16-some pdu 3 (ground arith) in
          let (t, et, lt) = store-some s 1 (b ∷ []) (omega arith) in
          let (c, ec, bc) = get16-some pdu 5 (ground arith) in
          let (u, eu, lu) = store-some t 2 (c ∷ []) (omega arith) in
          Keeps-bind _ ea (
            Keeps-bind _ es (
              Keeps-bind _ eb
                (Keeps-bind _ et (Keeps-bind _ ec (Keeps-bind _ eu (keeps (omega arith)))))))

  fifo_response-Keeps : Keeps (fifo_response ctx pdu pdu_len)
  unfolding fifo_response
  fifo_response-Keeps =
      Keeps-if (ltb pdu_len 2) (λ p. keeps v)
        λ p.
          let (n, en, bn) = get16-some pdu 1 (ground arith) in
          Keeps-bind _ en (
            Keeps-if (ltb pdu_len (2 + n)) (λ q. keeps v)
              λ q.
                let (xs, ex, lx) =
                  get_regs-some ctx.last_reg_data pdu 2 0 (min (n / 2) reg_words) (omega arith)
                    (ground arith) in
                Keeps-bind _ ex (keeps (omega arith)))

  response_switch-Keeps :
      (fc : ℕ) → Keeps (switch fc (response_cases ctx pdu pdu_len) (some (pa_err_protocol, ctx)))
  response_switch-Keeps fc =
      switch-all Keeps fc (response_cases ctx pdu pdu_len) (some (pa_err_protocol, ctx))
        (bits_response-Keeps & bits_response-Keeps & regs_response-Keeps & regs_response-Keeps
          & echo_response-Keeps & echo_response-Keeps & status_response-Keeps
          & diagnostic_response-Keeps & event_counter_response-Keeps & event_log_response-Keeps
          & echo_response-Keeps & echo_response-Keeps & server_id_response-Keeps
          & record_response-Keeps & write_record_response-Keeps & mask_response-Keeps
          & record_response-Keeps & fifo_response-Keeps & tt)
        (keeps v)

-- The master's parser makes no access outside an array, whatever the PDU is, if the memory behind
-- `pdu` has one byte more than the length that is given; it returns, and leaves the context valid.
pub parse_master_response-Keeps :
    {W : Type 0} (ctx : Modbus W) (pdu : List ℕ) (pdu_len : ℕ)
    → IsValid ctx
    → pdu_len + 1 ≤ length pdu
    → Keeps (parse_master_response ctx pdu pdu_len)
unfolding parse_master_response clear_response exception_response
parse_master_response-Keeps ctx pdu pdu_len v fits =
    Keeps-if (ltb pdu_len 1) (λ p. keeps v)
      λ p.
        let (fc, e) = get_elem?-some pdu 0 (ground arith) in
        let ctx' = record ctx { last_function = fc } in
        let v' : IsValid (clear_response ctx') = omega arith in
        Keeps-bind _ e (
          Keeps-if (not (bit_and fc 0x80 == 0))
            (λ q.
              Keeps-if (ltb pdu_len 2) (λ r. keeps (omega arith))
                λ r.
                  let (code, ec) = get_elem?-some pdu 1 (ground arith) in
                  Keeps-bind _ ec (keeps (omega arith)))
            λ q. response_switch-Keeps (clear_response ctx') v' pdu pdu_len fits fc)
