-- ===== src/Pdu/Slave/Frame.antt =====
-- `parse_slave_request` of src/pdu.c and the rest of the context.
use pamodbus.Common.{
  ℕ, List, some, switch, switch-all, ◌&◌, refl, ◌/◌, ltb, ◌||◌, ◌==◌, not, bit_and, if◌then◌else◌,
  get_elem?, ◌+◌, u8, u16, shr, low_bits, load, store, write,
}
use pamodbus.Pdu.Wire.{get16, get_regs}
use pamodbus.Context.{Modbus, pa_err_protocol, coil_bytes, reg_words}
use pamodbus.Context.Untouched.{setup_of, Untouched, untouched, Untouched-if, Untouched-bind}
use pamodbus.Pdu.Slave.{read_request, write_coil_request, write_register_request, plain_request}
use pamodbus.Pdu.Slave.{diagnostic_request, write_coils_request, write_registers_request}
use pamodbus.Pdu.Slave.{file_record_request, mask_request, read_write_data, read_write_request}
use pamodbus.Pdu.Slave.{fifo_request, request_cases, parse_slave_request}

module _ {W : Type 0} (ctx : Modbus W) (pdu : List ℕ) (pdu_len : ℕ) where
  read_request-Untouched :
      (limit : ℕ) → Untouched (setup_of ctx) (read_request ctx pdu pdu_len limit)
  unfolding read_request
  read_request-Untouched limit =
      Untouched-if (ltb pdu_len 5) (λ p. untouched refl)
        (λ q. Untouched-bind (get16 pdu 1) λ a.
          Untouched-bind (get16 pdu 3)
            λ c. Untouched-if (ltb c 1 || ltb limit c) (λ p. untouched refl) (λ q. untouched refl))

  write_coil_request-Untouched : Untouched (setup_of ctx) (write_coil_request ctx pdu pdu_len)
  unfolding write_coil_request
  write_coil_request-Untouched =
      Untouched-if (ltb pdu_len 5) (λ p. untouched refl)
        (λ q. Untouched-bind (get16 pdu 1) λ a. Untouched-bind (get16 pdu 3) λ v.
          Untouched-bind (write ctx.slave_coil_data 0 (if v == 0xff00 then 1 else 0))
            λ c. untouched refl)

  write_register_request-Untouched :
      Untouched (setup_of ctx) (write_register_request ctx pdu pdu_len)
  unfolding write_register_request
  write_register_request-Untouched =
      Untouched-if (ltb pdu_len 5) (λ p. untouched refl)
        (λ q. Untouched-bind (get16 pdu 1) λ a.
          Untouched-bind (get16 pdu 3)
            λ v. Untouched-bind (write ctx.slave_reg_data 0 v) λ c. untouched refl)

  plain_request-Untouched : Untouched (setup_of ctx) (plain_request ctx pdu pdu_len)
  unfolding plain_request
  plain_request-Untouched = Untouched-if (ltb pdu_len 1) (λ p. untouched refl) (λ q. untouched refl)

  diagnostic_request-Untouched : Untouched (setup_of ctx) (diagnostic_request ctx pdu pdu_len)
  unfolding diagnostic_request
  diagnostic_request-Untouched =
      Untouched-if (ltb pdu_len 5) (λ p. untouched refl)
        (λ q. Untouched-bind (get16 pdu 1) λ a.
          Untouched-bind (get16 pdu 3)
            λ v. Untouched-bind (write ctx.slave_reg_data 0 v) λ c. untouched refl)

  write_coils_request-Untouched : Untouched (setup_of ctx) (write_coils_request ctx pdu pdu_len)
  unfolding write_coils_request
  write_coils_request-Untouched =
      Untouched-if (ltb pdu_len 6) (λ p. untouched refl)
        (λ q. Untouched-bind (get16 pdu 1) λ a. Untouched-bind (get16 pdu 3) λ c.
          Untouched-if (ltb c 1 || ltb 1968 c) (λ p. untouched refl)
            (λ q. Untouched-bind (get_elem? pdu 5) λ n.
              Untouched-if (ltb pdu_len (6 + n)) (λ p. untouched refl)
                (λ q.
                  Untouched-if (ltb coil_bytes n) (λ p. untouched refl)
                    (λ q.
                      Untouched-bind (load pdu 6 n)
                        λ b. Untouched-bind (store ctx.slave_coil_data 0 b) λ s. untouched refl))))

  write_registers_request-Untouched :
      Untouched (setup_of ctx) (write_registers_request ctx pdu pdu_len)
  unfolding write_registers_request
  write_registers_request-Untouched =
      Untouched-if (ltb pdu_len 6) (λ p. untouched refl)
        (λ q. Untouched-bind (get16 pdu 1) λ a. Untouched-bind (get16 pdu 3) λ c.
          Untouched-if (ltb c 1 || ltb 123 c) (λ p. untouched refl)
            (λ q. Untouched-bind (get_elem? pdu 5) λ n.
              Untouched-if (ltb pdu_len (6 + n)) (λ p. untouched refl)
                (λ q.
                  Untouched-if (ltb reg_words (u16 (n / 2))) (λ p. untouched refl)
                    (λ q.
                      Untouched-bind (get_regs ctx.slave_reg_data pdu 6 0 (u16 (n / 2)))
                        λ s. untouched refl))))

  file_record_request-Untouched : Untouched (setup_of ctx) (file_record_request ctx pdu pdu_len)
  unfolding file_record_request
  file_record_request-Untouched =
      Untouched-if (ltb pdu_len 2) (λ p. untouched refl)
        (λ q. Untouched-bind (get_elem? pdu 1) λ n.
          Untouched-if (ltb pdu_len (2 + n)) (λ p. untouched refl)
            (λ q.
              Untouched-if (ltb reg_words (u16 (n / 2))) (λ p. untouched refl)
                (λ q.
                  Untouched-bind (get_regs ctx.slave_reg_data pdu 2 0 (u16 (n / 2)))
                    λ s. untouched refl)))

  mask_request-Untouched : Untouched (setup_of ctx) (mask_request ctx pdu pdu_len)
  unfolding mask_request
  mask_request-Untouched =
      Untouched-if (ltb pdu_len 7) (λ p. untouched refl)
        (λ q. Untouched-bind (get16 pdu 1) λ a. Untouched-bind (get16 pdu 3) λ b.
          Untouched-bind (write ctx.slave_reg_data 0 b)
            λ r. Untouched-bind (get16 pdu 5) λ c. Untouched-bind (write r 1 c) λ s. untouched refl)

  read_write_request-Untouched : Untouched (setup_of ctx) (read_write_request ctx pdu pdu_len)
  unfolding read_write_request read_write_data
  read_write_request-Untouched =
      Untouched-if (ltb pdu_len 11) (λ p. untouched refl)
        (λ q. Untouched-bind (get16 pdu 1) λ a. Untouched-bind (get16 pdu 3) λ b.
          Untouched-bind (get16 pdu 5) λ c. Untouched-bind (get16 pdu 7) λ d.
            Untouched-if (ltb b 1 || ltb 125 b) (λ p. untouched refl)
              (λ q.
                Untouched-if (ltb d 1 || ltb 121 d) (λ p. untouched refl)
                  (λ q. Untouched-bind (get_elem? pdu 9) λ n.
                    Untouched-if (ltb pdu_len (10 + n)) (λ p. untouched refl)
                      (λ q.
                        Untouched-if (ltb reg_words (u16 (n / 2))) (λ p. untouched refl)
                          (λ q.
                            Untouched-bind (write ctx.slave_coil_data 0 (u8 (low_bits (shr c 8) 8)))
                              λ s. Untouched-bind (write s 1 (u8 (low_bits c 8))) λ t.
                                Untouched-bind (write t 2 (u8 (low_bits (shr d 8) 8))) λ x.
                                  Untouched-bind (write x 3 (u8 (low_bits d 8))) λ y.
                                    Untouched-bind
                                      (get_regs ctx.slave_reg_data pdu 10 0 (u16 (n / 2)))
                                      λ r. untouched refl)))))

  fifo_request-Untouched : Untouched (setup_of ctx) (fifo_request ctx pdu pdu_len)
  unfolding fifo_request
  fifo_request-Untouched =
      Untouched-if (ltb pdu_len 3) (λ p. untouched refl)
        (λ q. Untouched-bind (get16 pdu 1) λ a. untouched refl)

  request_switch-Untouched :
      (fc : ℕ)
      → Untouched
          (setup_of ctx)
          (switch fc (request_cases ctx pdu pdu_len) (some (pa_err_protocol, ctx)))
  request_switch-Untouched fc =
      switch-all (Untouched (setup_of ctx)) fc (request_cases ctx pdu pdu_len)
        (some (pa_err_protocol, ctx))
        (read_request-Untouched 2000
          & read_request-Untouched 2000
          & read_request-Untouched 125
          & read_request-Untouched 125
          & write_coil_request-Untouched
          & write_register_request-Untouched
          & plain_request-Untouched
          & diagnostic_request-Untouched
          & plain_request-Untouched
          & plain_request-Untouched
          & write_coils_request-Untouched
          & write_registers_request-Untouched
          & plain_request-Untouched
          & file_record_request-Untouched
          & file_record_request-Untouched
          & mask_request-Untouched
          & read_write_request-Untouched
          & fifo_request-Untouched
          & tt)
        (untouched refl)

pub parse_slave_request-Untouched :
    {W : Type 0} (ctx : Modbus W) (pdu : List ℕ) (pdu_len : ℕ)
    → Untouched (setup_of ctx) (parse_slave_request ctx pdu pdu_len)
unfolding parse_slave_request
parse_slave_request-Untouched ctx pdu pdu_len =
    Untouched-if (ltb pdu_len 1) (λ p. untouched refl)
      (λ q. Untouched-bind (get_elem? pdu 0) λ fc.
        Untouched-if (not (bit_and fc 0x80 == 0)) (λ p. untouched refl)
          (λ q.
            request_switch-Untouched (record ctx { last_function = fc; slave_data_valid = 0 }) pdu
              pdu_len fc))
