-- ===== src/Framer/Tests.antt =====
-- The framers of src/framer_rtu.c and src/framer_tcp.c on concrete frames.
use pamodbus.Common.{◌%◌, ◌/◌, ℕ, List, [], ◌∷◌, ◌++◌, none, some, ◌≡◌, ◌≢◌, refl, arith}
use pamodbus.Common.{replicate, pos}
use pamodbus.Crc.{pa_crc16, crc_loop, crc_step, crc_index, crc16_table}
use pamodbus.Crc.Reference.{reference_crc}
use pamodbus.Context.{Modbus, init, pa_err_crc}
use pamodbus.Context.Config.{set_slave, set_txbuf}
use pamodbus.Framer.Outcome.{framed, pdu_at, stopped}
use pamodbus.Framer.Frames.{rtu_adu, tcp_adu}
use pamodbus.Framer.Rtu.{
  expected_len, check_frame, proceed, expect_report_id, wrong_slave, rtu_wrap, rtu_unwrap,
}
use pamodbus.Framer.Rtu.Wrap.{rtu_wrap-adu}
use pamodbus.Framer.Rtu.Accept.{IsAccepted, rtu_unwrap-IsAccepted}
use pamodbus.Framer.Rtu.Total.{rtu_unwrap-total}
use pamodbus.Framer.Rtu.Complete.{rtu_unwrap-adu, rtu_unwrap-damaged}
use pamodbus.Framer.Tcp.{wrong_unit, tcp_wrap, tcp_unwrap}
use pamodbus.Framer.Tcp.Wrap.{tcp_wrap-adu}
use pamodbus.Framer.Tcp.Unwrap.{tcp_unwrap-total, tcp_unwrap-adu, tcp_unwrap-zero_length}

-- Write the coil 10: the PDU, and a context of slave 1 that has it in a transmit buffer.
abbrev pdu : List ℕ
pdu = 5 ∷ 0 ∷ 10 ∷ 255 ∷ 0 ∷ []

abbrev ctx_one : Modbus ℕ
unfolding init set_slave set_txbuf
ctx_one = set_txbuf (set_slave (init 7 0) 1) (some (pdu ++ replicate 7 0)) 12

rtu_wrap-adu_example :
    rtu_wrap ctx_one 5
    ≡ some (framed 8 (record ctx_one { txbuf = some (rtu_adu 1 pdu ++ replicate 4 0) }))
unfolding ctx_one
rtu_wrap-adu_example =
    rtu_wrap-adu ctx_one pdu (replicate 7 0) refl (omega arith) (omega arith) (omega arith)
      (omega arith)

-- The discovery answer [01, 11, CRC], which the framer takes at the length given.
rtu_unwrap-IsAccepted_example : IsAccepted ctx_one (0x01 ∷ 0x11 ∷ 0xc0 ∷ 0x2c ∷ []) 4 1 1
unfolding ctx_one rtu_unwrap expected_len expect_report_id proceed check_frame wrong_slave pa_crc16
    crc_loop crc_step crc_index crc16_table
rtu_unwrap-IsAccepted_example =
    rtu_unwrap-IsAccepted ctx_one (0x01 ∷ 0x11 ∷ 0xc0 ∷ 0x2c ∷ []) 4 (omega arith) refl

rtu_unwrap-total_example : rtu_unwrap ctx_one (9 ∷ 9 ∷ 9 ∷ 9 ∷ 9 ∷ []) 5 ≢ none
rtu_unwrap-total_example = rtu_unwrap-total ctx_one (9 ∷ 9 ∷ 9 ∷ 9 ∷ 9 ∷ []) 5 (omega arith)

rtu_unwrap-adu_example : rtu_unwrap ctx_one (rtu_adu 1 pdu ++ 9 ∷ []) 9 ≡ some (pdu_at 1 5)
unfolding ctx_one expected_len wrong_slave
rtu_unwrap-adu_example =
    rtu_unwrap-adu ctx_one 1 5 (0 ∷ 10 ∷ 255 ∷ 0 ∷ []) (9 ∷ []) 9 (omega arith) (omega arith) refl

-- The address 10 was damaged to 11.
rtu_unwrap-damaged_example :
    (let sum = reference_crc 0xffff (1 ∷ pdu) in
      rtu_unwrap ctx_one ((1 ∷ 5 ∷ 0 ∷ 11 ∷ 255 ∷ 0 ∷ []) ++ sum % 256 ∷ sum / 256 ∷ []) 8)
    ≡ some (stopped pa_err_crc)
unfolding expected_len
rtu_unwrap-damaged_example =
    rtu_unwrap-damaged ctx_one 1 5 (0 ∷ 11 ∷ 255 ∷ 0 ∷ []) [] 8 (omega arith) (omega arith)
      (1 ∷ 5 ∷ 0 ∷ []) (255 ∷ 0 ∷ []) 10 11 (reference_crc 0xffff (1 ∷ pdu)) refl (omega arith)
      (λ e. omega arith) refl refl

tcp_wrap-adu_example :
    tcp_wrap ctx_one 5
    ≡ some (
        framed 12
          (record ctx_one { txbuf = some (tcp_adu 7 1 pdu ++ []); next_transaction_id = 8 }))
unfolding ctx_one
tcp_wrap-adu_example =
    tcp_wrap-adu ctx_one pdu (replicate 7 0) refl (omega arith) (omega arith) (omega arith)
      (omega arith)

tcp_unwrap-total_example : tcp_unwrap ctx_one (replicate 8 9) 8 ≢ none
tcp_unwrap-total_example = tcp_unwrap-total ctx_one (replicate 8 9) 8 (omega arith)

-- The whole frame of the PDU, and the receiver waits for one byte more.
tcp_unwrap-adu_example : tcp_unwrap ctx_one (tcp_adu 7 1 pdu ++ []) 12 ≡ some (stopped (pos 1))
unfolding ctx_one
tcp_unwrap-adu_example =
    tcp_unwrap-adu ctx_one 7 1 pdu [] 12 (omega arith) (omega arith) (omega arith)

tcp_unwrap-zero_length_example :
    tcp_unwrap ctx_one (0 ∷ 7 ∷ 0 ∷ 0 ∷ 0 ∷ 0 ∷ 1 ∷ 5 ∷ []) 8 ≡ some (pdu_at 7 0xffffffffffffffff)
unfolding ctx_one wrong_unit
tcp_unwrap-zero_length_example = tcp_unwrap-zero_length ctx_one 0 7 1 (5 ∷ []) 8 (omega arith) refl
