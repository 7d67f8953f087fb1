-- ===== src/Pdu/Master/Frame.antt =====
-- `parse_master_response` of src/pdu.c and the rest of the context.
use pamodbus.Common.{
  ℕ, List, some, switch, switch-all, ◌&◌, refl, ◌/◌, ltb, leb, ◌==◌, not, bit_and, get_elem?, ◌+◌,
  ◌-◌, min, u16, load, store, write,
}
use pamodbus.Pdu.Wire.{get16, get_regs}
use pamodbus.Context.{Modbus, pa_err_protocol, coil_bytes, reg_words}
use pamodbus.Context.Untouched.{setup_of, Untouched, untouched, Untouched-if, Untouched-bind}
use pamodbus.Pdu.Master.{padded_regs, bits_response, regs_response, echo_response}
use pamodbus.Pdu.Master.{status_response, diagnostic_response, event_counter_response, event_log}
use pamodbus.Pdu.Master.{event_log_response, server_id_response, record_response}
use pamodbus.Pdu.Master.{write_record_response, mask_response, fifo_response, response_cases}
use pamodbus.Pdu.Master.{exception_response, clear_response, parse_master_response}

module _ {W : Type 0} (ctx : Modbus W) (pdu : List ℕ) (pdu_len : ℕ) where
  bits_response-Untouched : Untouched (setup_of ctx) (bits_response ctx pdu pdu_len)
  unfolding bits_response
  bits_response-Untouched =
      Untouched-if (ltb pdu_len 2) (λ p. untouched refl)
        (λ q. Untouched-bind (get_elem? pdu 1) λ n.
          Untouched-if (ltb pdu_len (2 + n)) (λ p. untouched refl)
            (λ q.
              Untouched-if (ltb coil_bytes n) (λ p. untouched refl)
                (λ q.
                  Untouched-bind (load pdu 2 n)
                    λ b. Untouched-bind (store ctx.last_coil_data 0 b) λ c. untouched refl)))

  regs_response-Untouched : Untouched (setup_of ctx) (regs_response ctx pdu pdu_len)
  unfolding regs_response
  regs_response-Untouched =
      Untouched-if (ltb pdu_len 2) (λ p. untouched refl)
        (λ q. Untouched-bind (get_elem? pdu 1) λ n.
          Untouched-if (ltb pdu_len (2 + n)) (λ p. untouched refl)
            (λ q.
              Untouched-if (ltb reg_words (n / 2)) (λ p. untouched refl)
                (λ q.
                  Untouched-bind (get_regs ctx.last_reg_data pdu 2 0 (u16 (n / 2)))
                    λ r. untouched refl)))

  echo_response-Untouched : Untouched (setup_of ctx) (echo_response ctx pdu pdu_len)
  unfolding echo_response
  echo_response-Untouched = Untouched-if (ltb pdu_len 5) (λ p. untouched refl) (λ q. untouched refl)

  status_response-Untouched : Untouched (setup_of ctx) (status_response ctx pdu pdu_len)
  unfolding status_response
  status_response-Untouched =
      Untouched-if (ltb pdu_len 2) (λ p. untouched refl)
        (λ q.
          Untouched-bind (get_elem? pdu 1)
            λ n. Untouched-bind (write ctx.last_coil_data 0 n) λ c. untouched refl)

  diagnostic_response-Untouched : Untouched (setup_of ctx) (diagnostic_response ctx pdu pdu_len)
  unfolding diagnostic_response
  diagnostic_response-Untouched =
      Untouched-if (ltb pdu_len 5) (λ p. untouched refl)
        (λ q.
          Untouched-bind (get16 pdu 3)
            λ v. Untouched-bind (write ctx.last_reg_data 0 v) λ r. untouched refl)

  event_counter_response-Untouched :
      Untouched (setup_of ctx) (event_counter_response ctx pdu pdu_len)
  unfolding event_counter_response
  event_counter_response-Untouched =
      Untouched-if (ltb pdu_len 5) (λ p. untouched refl)
        (λ q. Untouched-bind (get16 pdu 1) λ v.
          Untouched-bind (write ctx.last_reg_data 0 v)
            λ r. Untouched-bind (get16 pdu 3) λ c. Untouched-bind (write r 1 c) λ s. untouched refl)

  event_log_response-Untouched : Untouched (setup_of ctx) (event_log_response ctx pdu pdu_len)
  unfolding event_log_response event_log
  event_log_response-Untouched =
      Untouched-if (ltb pdu_len 2) (λ p. untouched refl)
        (λ q. Untouched-bind (get_elem? pdu 1) λ n.
          Untouched-if (ltb pdu_len (2 + n)) (λ p. untouched refl)
            (λ q.
              Untouched-if (leb 4 n)
                (λ p. Untouched-bind (get16 pdu 2) λ v.
                  Untouched-bind (write ctx.last_reg_data 0 v) λ r.
                    Untouched-bind (get16 pdu 4) λ c. Untouched-bind (write r 1 c) λ s.
                      Untouched-bind (load pdu 6 (min (n - 4) coil_bytes))
                        λ b. Untouched-bind (store ctx.last_coil_data 0 b) λ x. untouched refl)
                (λ p. untouched refl)))

  server_id_response-Untouched : Untouched (setup_of ctx) (server_id_response ctx pdu pdu_len)
  unfolding server_id_response
  server_id_response-Untouched =
      Untouched-if (ltb pdu_len 2) (λ p. untouched refl)
        (λ q. Untouched-bind (get_elem? pdu 1) λ n.
          Untouched-if (ltb pdu_len (2 + n)) (λ p. untouched refl)
            (λ q.
              Untouched-bind
                (padded_regs ctx.last_reg_data pdu n 0 (min (u16 ((n + 1) / 2)) reg_words))
                λ r. untouched refl))

  record_response-Untouched : Untouched (setup_of ctx) (record_response ctx pdu pdu_len)
  unfolding record_response
  record_response-Untouched =
      Untouched-if (ltb pdu_len 2) (λ p. untouched refl)
        (λ q. Untouched-bind (get_elem? pdu 1) λ n.
          Untouched-if (ltb pdu_len (2 + n)) (λ p. untouched refl)
            (λ q.
              Untouched-bind (get_regs ctx.last_reg_data pdu 2 0 (min (u16 (n / 2)) reg_words))
                λ r. untouched refl))

  write_record_response-Untouched : Untouched (setup_of ctx) (write_record_response ctx pdu pdu_len)
  unfolding write_record_response
  write_record_response-Untouched =
      Untouched-if (ltb pdu_len 2) (λ p. untouched refl)
        (λ q.
          Untouched-bind (get_elem? pdu 1)
            λ n. Untouched-if (ltb pdu_len (2 + n)) (λ p. untouched refl) (λ q. untouched refl))

  mask_response-Untouched : Untouched (setup_of ctx) (mask_response ctx pdu pdu_len)
  unfolding mask_response
  mask_response-Untouched =
      Untouched-if (ltb pdu_len 7) (λ p. untouched refl)
        (λ q. Untouched-bind (get16 pdu 1) λ a. Untouched-bind (write ctx.last_reg_data 0 a) λ r.
          Untouched-bind (get16 pdu 3) λ b.
            Untouched-bind (write r 1 b) λ s.
              Untouched-bind (get16 pdu 5) λ c. Untouched-bind (write s 2 c) λ t. untouched refl)

  fifo_response-Untouched : Untouched (setup_of ctx) (fifo_response ctx pdu pdu_len)
  unfolding fifo_response
  fifo_response-Untouched =
      Untouched-if (ltb pdu_len 2) (λ p. untouched refl)
        (λ q. Untouched-bind (get16 pdu 1) λ n.
          Untouched-if (ltb pdu_len (2 + n)) (λ p. untouched refl)
            (λ q.
              Untouched-bind (get_regs ctx.last_reg_data pdu 2 0 (min (n / 2) reg_words))
                λ r. untouched refl))

  response_switch-Untouched :
      (fc : ℕ)
      → Untouched
          (setup_of ctx)
          (switch fc (response_cases ctx pdu pdu_len) (some (pa_err_protocol, ctx)))
  response_switch-Untouched fc =
      switch-all (Untouched (setup_of ctx)) fc (response_cases ctx pdu pdu_len)
        (some (pa_err_protocol, ctx))
        (bits_response-Untouched & bits_response-Untouched & regs_response-Untouched
          & regs_response-Untouched & echo_response-Untouched & echo_response-Untouched
          & status_response-Untouched & diagnostic_response-Untouched
          & event_counter_response-Untouched & event_log_response-Untouched
          & echo_response-Untouched & echo_response-Untouched & server_id_response-Untouched
          & record_response-Untouched & write_record_response-Untouched & mask_response-Untouched
          & record_response-Untouched & fifo_response-Untouched & tt)
        (untouched refl)

pub parse_master_response-Untouched :
    {W : Type 0} (ctx : Modbus W) (pdu : List ℕ) (pdu_len : ℕ)
    → Untouched (setup_of ctx) (parse_master_response ctx pdu pdu_len)
unfolding parse_master_response clear_response exception_response
parse_master_response-Untouched ctx pdu pdu_len =
    Untouched-if (ltb pdu_len 1) (λ p. untouched refl)
      (λ q. Untouched-bind (get_elem? pdu 0) λ fc.
        Untouched-if (not (bit_and fc 0x80 == 0))
          (λ p.
            Untouched-if (ltb pdu_len 2) (λ p. untouched refl)
              (λ q. Untouched-bind (get_elem? pdu 1) λ code. untouched refl))
          (λ q.
            response_switch-Untouched (clear_response (record ctx { last_function = fc })) pdu
              pdu_len fc))
