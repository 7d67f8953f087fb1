-- ===== src/Pdu/Feed/Exceptions.antt =====
-- From the slave's exception response to the master (src/pdu.c, src/framer_rtu.c).
use pamodbus.Common.{ℕ, ◌+◌, ◌≤◌, ◌<◌, List, [], ◌∷◌, some, true, not}
use pamodbus.Common.{
  ◌≡◌, refl, arith, ap, ◌∙◌, drop, deref, u8, bit_or, bit_and, ◌==◌, leb, ◌>>=◌, ==_iff,
}
use pamodbus.Common.{switch-default}
use pamodbus.Common.Bits.{all_below, all_below-lt}
use pamodbus.Context.{Modbus, pa_err_exception}
use pamodbus.Framer.Rtu.{expect, expected_len, length_cases, expect_exception}
use pamodbus.Pdu.Build.{finish_with}
use pamodbus.Pdu.Build.Sent.{IsReady, sent, finish_with-sent}
use pamodbus.Pdu.Master.{parse_master_response, exception_response}
use pamodbus.Pdu.Respond.{slave_respond_error}
use pamodbus.Pdu.Respond.Registers.{write_two}
use pamodbus.Pdu.Feed.{master_feed}
use pamodbus.Pdu.Feed.Roundtrip.{IsListening}
use pamodbus.Pdu.Feed.Received.{master_feed-adu}

-- The bits of a function code from 1 to 0x18 with the top bit set.
marked : (fc : ℕ) → fc < 25 → u8 (bit_or fc 0x80) ≡ fc + 128
unfolding all_below
marked fc h =
    (==_iff (u8 (bit_or fc 0x80)) (fc + 128)).0
      (all_below-lt 25 (λ n. u8 (bit_or n 0x80) == n + 128) fc refl h)

mark_seen : (fc : ℕ) → fc < 25 → not (bit_and (fc + 128) 0x80 == 0) ≡ true
unfolding all_below
mark_seen fc h = all_below-lt 25 (λ n. not (bit_and (n + 128) 0x80 == 0)) fc refl h

code_seen : (fc : ℕ) → fc < 25 → bit_and (fc + 128) 0x7f ≡ fc
unfolding all_below
code_seen fc h =
    (==_iff (bit_and (fc + 128) 0x7f) fc).0
      (all_below-lt 25 (λ n. bit_and (n + 128) 0x7f == n) fc refl h)

exception_len :
    (fc : ℕ) (bytes : List ℕ) → 1 ≤ fc → fc < 25 → expected_len (fc + 128) bytes 5 ≡ some (expect 5)
unfolding expected_len expect_exception
exception_len fc bytes low h =
    let g1 : leb 1 fc ≡ true = ground arith in
    let g2 : leb fc 24 ≡ true = ground arith in
    switch-default 128 (fc + 128) (length_cases bytes 5) (expect_exception (fc + 128)) (omega arith)
      (omega arith)
    ∙ rw (mark_seen fc h, code_seen fc h, g1, g2) refl

module _ {W : Type 0} (m s : Modbus W) (code : ℕ) (byte : code < 256) (low : 1 ≤ s.last_function)
    (high : s.last_function < 25) (ready : IsReady s 5) (l : IsListening m s.slave) where
  abbrev pdu : List ℕ
  pdu = (s.last_function + 128) ∷ code ∷ []

  slave_respond_error-sent : slave_respond_error s code ≡ sent s pdu
  unfolding slave_respond_error
  slave_respond_error-sent = rw (marked s.last_function high) (
      write_two (s.last_function + 128) code (deref s.txbuf) (λ buf. finish_with s buf 2)
        (omega (arith, ready.room))
      ∙ finish_with-sent s pdu ready (omega arith))

  -- An exception arrives: over RTU, for a request with a function code from 1 to 0x18 and a transmit buffer
  -- with room for 5 bytes, the frame that `pa_modbus_slave_respond_error` leaves is accepted by a master that
  -- answers to the slave's address; the master's feed returns PA_ERR_EXCEPTION, and the master then has the
  -- exception code, the function code with the top bit set, and the error.
  pub exception_arrives :
      (slave_respond_error s code >>= λ (ret, s'). master_feed m (deref s'.txbuf) s'.tx_len)
      ≡ some (
        pa_err_exception,
        record m {
          last_function = s.last_function + 128;
          last_exception = code;
          last_error = pa_err_exception;
        },
      )
  unfolding parse_master_response exception_response
  exception_arrives =
      let seen = mark_seen s.last_function high in
      ap (λ o. o >>= λ (ret, s'). master_feed m (deref s'.txbuf) s'.tx_len) slave_respond_error-sent
      ∙ master_feed-adu m s.slave l (drop 5 (deref s.txbuf)) (s.last_function + 128) (code ∷ []) 5
          (ready.unit, (omega arith, (byte, tt))) (omega arith)
          (exception_len s.last_function _ low high)
      ∙ rw seen refl
