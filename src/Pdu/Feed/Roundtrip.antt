-- ===== src/Pdu/Feed/Roundtrip.antt =====
-- From the master's builder to the slave's parser, over RTU (src/pdu.c, src/framer_rtu.c).
use pamodbus.Common.{
  ℕ, ◌+◌, ◌-◌, ◌*◌, ◌/◌, ◌%◌, ◌^◌, ◌≤◌, ◌<◌, List, [], ◌∷◌, ◌++◌, some, false, true,
}
use pamodbus.Common.{
  ◌≡◌, refl, arith, ap, ap₂, ◌∙◌, append_assoc, length, ltb, leb, if◌then◌else◌, ◌>>=◌, deref, drop,
  pos,
}
use pamodbus.Crc.Reference.{reference_crc, IsBytes}
use pamodbus.Context.{Modbus, Result, rtu_ops, pa_ok, pa_err_invalid_slave}
use pamodbus.Framer.Outcome.{pdu_at, stopped}
use pamodbus.Framer.Frames.{rtu_adu, crc_bytes}
use pamodbus.Framer.Ops.{unwrap-rtu_unwrap}
use pamodbus.Framer.Rtu.{
  wrong_slave, expect, expected_len, expect_read, expect_write_multiple, rtu_unwrap, check_frame,
  proceed,
}
use pamodbus.Framer.Rtu.Complete.{rtu_unwrap-adu}
use pamodbus.Pdu.Wire.Layout.{IsWords, regs_bytes, length-regs_bytes}
use pamodbus.Pdu.Build.{
  build_write_multiple_registers, build_write_single_register, build_read_holding_registers,
}
use pamodbus.Pdu.Build.Payload.{fixed_pdu, registers_pdu}
use pamodbus.Pdu.Build.Sent.{
  IsReady, sent, regs_bytes-IsBytes, requests_sent, build_write_multiple_registers-sent,
}
use pamodbus.Pdu.Slave.{parse_slave_request}
use pamodbus.Pdu.Slave.Request.{
  parse_slave_request-registers, parse_slave_request-register, parse_slave_request-read,
}
use pamodbus.Pdu.Feed.{slave_feed, slave_dispatch}

-- The slave is fed what the master's builder left in its transmit buffer.
abbrev pub delivered : {W : Type 0} → Result W → Modbus W → Result W
delivered built s = built >>= λ (ret, c). slave_feed s (deref c.txbuf) c.tx_len

-- A slave over RTU that answers to an address.
pub record IsListening {W : Type 0} (s : Modbus W) (id : ℕ) : Type 0 where
  pub framed : s.framer ≡ rtu_ops
  pub unit : wrong_slave s id ≡ false

module _ {W : Type 0} (s : Modbus W) (id fc : ℕ) (payload extra : List ℕ) (len : ℕ)
    (bytes : IsBytes (id ∷ fc ∷ payload)) (room : length payload + 4 ≤ len)
    (l : IsListening s id) where
  -- A frame whose length is recognised reaches the parser.
  pub slave_feed-adu :
      expected_len fc (rtu_adu id (fc ∷ payload) ++ extra) len ≡ some (expect (length payload + 4))
      → slave_feed s (rtu_adu id (fc ∷ payload) ++ extra) len
        ≡ slave_dispatch s (rtu_adu id (fc ∷ payload) ++ extra) (pdu_at 1 (length (fc ∷ payload)))
  unfolding slave_feed
  slave_feed-adu found =
      let frame = rtu_adu id (fc ∷ payload) ++ extra in
      ap (λ o. o >>= slave_dispatch s frame)
        (unwrap-rtu_unwrap s l.framed frame len
          ∙ rtu_unwrap-adu s id fc payload extra len bytes room found
          ∙ ap
              (λ b.
                if b
                then some (stopped pa_err_invalid_slave)
                else some (pdu_at 1 (length (fc ∷ payload))))
              l.unit)

module _ {W : Type 0} (m s : Modbus W) (l : IsListening s m.slave) (addr : ℕ)
    (small : addr < 2 ^ 16) where
  -- What a master writes arrives: the frame that the builder of FC 10 leaves in the transmit
  -- buffer, for 1 to 123 registers, is accepted by a slave that answers to the master's address,
  -- which then has the address, the count and the registers at the front of its register data.
  pub write_registers_arrive :
      (vs post old rest : List ℕ)
      → IsReady m (9 + length vs * 2)
      → IsWords vs
      → 1 ≤ length vs
      → length vs ≤ 123
      → s.slave_reg_data ≡ old ++ rest
      → length old ≡ length vs
      → delivered (build_write_multiple_registers m addr (vs ++ post) (length vs)) s
        ≡ some (
          pa_ok,
          record s {
            last_function = 0x10;
            slave_addr = addr;
            slave_count = length vs;
            slave_reg_count = length vs;
            slave_reg_data = vs ++ rest;
            slave_data_valid = 1;
          },
        )
  unfolding slave_dispatch expected_len expect_write_multiple
  write_registers_arrive vs post old rest ready words low high holds same =
      let n = length vs in
      let extra = drop (length (registers_pdu addr vs) + 3) (deref m.txbuf) in
      let payload = addr / 256 ∷ addr % 256 ∷ n / 256 ∷ n % 256 ∷ n * 2 ∷ regs_bytes vs in
      let len = length (registers_pdu addr vs) + 3 in
      let bytes : IsBytes (m.slave ∷ 0x10 ∷ payload) = (
        ready.unit,
        (
          omega arith,
          (
            omega arith,
            (omega arith, (omega arith, (omega arith, (omega arith, regs_bytes-IsBytes vs words)))),
          ),
        ),
      ) in
      let count : length (registers_pdu addr vs) ≡ 6 + n * 2 =
        omega (arith, length-regs_bytes vs) in
      let long : ltb len 8 ≡ false = ground (arith, count) in
      let total : 7 + n * 2 + 2 ≡ length payload + 4 = omega (arith, length-regs_bytes vs) in
      ap (λ b. delivered b s)
        (build_write_multiple_registers-sent m addr vs post words small low high ready)
      ∙ slave_feed-adu s m.slave 0x10 payload extra len bytes (omega (arith, count)) l
          (rw (long, total) refl)
      ∙ ap₂ (λ p n. parse_slave_request s p n)
          (append_assoc (registers_pdu addr vs)
            (crc_bytes (reference_crc 0xffff (m.slave ∷ registers_pdu addr vs))) extra)
          count
      ∙ parse_slave_request-registers s addr vs old rest
          (crc_bytes (reference_crc 0xffff (m.slave ∷ registers_pdu addr vs)) ++ extra) small words
          low high holds same

  fixed-IsBytes :
      (fc v : ℕ) → m.slave < 256 → fc < 256 → v < 2 ^ 16 → IsBytes (m.slave ∷ fixed_pdu fc addr v)
  fixed-IsBytes fc v hs hf hv = omega arith

  -- A master's write of one register (FC 06) arrives: what its builder leaves in the transmit buffer
  -- is accepted by a slave that answers to the master's address, which then has the address and the
  -- register at the front of its register data.
  pub write_register_arrives :
      (v old : ℕ) (rest : List ℕ)
      → IsReady m 8
      → v < 2 ^ 16
      → s.slave_reg_data ≡ old ∷ rest
      → delivered (build_write_single_register m addr v) s
        ≡ some (
          pa_ok,
          record s {
            last_function = 6;
            slave_addr = addr;
            slave_count = 1;
            slave_reg_count = 1;
            slave_reg_data = v ∷ rest;
            slave_data_valid = 1;
          },
        )
  unfolding slave_dispatch expected_len
  write_register_arrives v old rest ready hv holds =
      let extra = drop 8 (deref m.txbuf) in
      let payload = addr / 256 ∷ addr % 256 ∷ v / 256 ∷ v % 256 ∷ [] in
      let crc = crc_bytes (reference_crc 0xffff (m.slave ∷ fixed_pdu 6 addr v)) in
      ap (λ b. delivered b s) (requests_sent m ready addr v small hv).5
      ∙ slave_feed-adu s m.slave 6 payload extra 8 (fixed-IsBytes 6 v ready.unit (omega arith) hv)
          (omega arith) l refl
      ∙ ap (λ p. parse_slave_request s p 5) (append_assoc (fixed_pdu 6 addr v) crc extra)
      ∙ parse_slave_request-register s addr v old rest (crc ++ extra) small hv holds

  pub read_built :
      (v : ℕ)
      → IsReady m 8
      → 1 ≤ v
      → v ≤ 125
      → build_read_holding_registers m addr v ≡ sent m (fixed_pdu 3 addr v)
  read_built v ready low high =
      let g2 : ltb v 1 ≡ false = ground arith in
      let g3 : ltb 125 v ≡ false = ground arith in
      (requests_sent m ready addr v small (omega arith)).2 ∙ rw (g2, g3) refl

  -- A master's read of 1 to 125 holding registers (FC 03) at an address below 256 arrives: what its
  -- builder leaves in the transmit buffer is accepted by a slave that answers to the master's
  -- address, which then has the address and the count.
  pub read_registers_arrive :
      (v : ℕ)
      → IsReady m 8
      → addr < 256
      → 1 ≤ v
      → v ≤ 125
      → delivered (build_read_holding_registers m addr v) s
        ≡ some (
          pa_ok,
          record s { last_function = 3; slave_addr = addr; slave_count = v; slave_data_valid = 0 },
        )
  unfolding slave_dispatch expected_len expect_read
  read_registers_arrive v ready low_addr low high =
      let extra = drop 8 (deref m.txbuf) in
      let payload = addr / 256 ∷ addr % 256 ∷ v / 256 ∷ v % 256 ∷ [] in
      let crc = crc_bytes (reference_crc 0xffff (m.slave ∷ fixed_pdu 3 addr v)) in
      let zero_high : addr / 256 ≡ 0 = omega arith in
      ap (λ b. delivered b s) (read_built v ready low high)
      ∙ slave_feed-adu s m.slave 3 payload extra 8
          (fixed-IsBytes 3 v ready.unit (omega arith) (omega arith)) (omega arith) l
          (rw zero_high refl)
      ∙ ap (λ p. parse_slave_request s p 5) (append_assoc (fixed_pdu 3 addr v) crc extra)
      ∙ parse_slave_request-read s addr v (crc ++ extra) small low high

  -- A master's read of holding registers (FC 03) at an address from 1024 to 64255 does not arrive:
  -- the slave takes the high byte of the address for a byte count, and asks for 1 or more bytes
  -- behind the frame that the builder left in the transmit buffer, without a change of its state.
  pub read_registers_wait :
      (v : ℕ)
      → IsReady m 8
      → 1024 ≤ addr
      → addr ≤ 64255
      → 1 ≤ v
      → v ≤ 125
      → delivered (build_read_holding_registers m addr v) s ≡ some (pos (addr / 256 - 3), s)
  unfolding slave_feed slave_dispatch rtu_unwrap expected_len expect_read check_frame proceed
  read_registers_wait v ready from to low high =
      let extra = drop 8 (deref m.txbuf) in
      let frame = rtu_adu m.slave (fixed_pdu 3 addr v) ++ extra in
      let bc = addr / 256 in
      let g4 : leb bc 250 ≡ true = ground arith in
      let g5 : ltb 0 bc ≡ true = ground arith in
      let g6 : ltb 8 (3 + bc + 2) ≡ true = ground arith in
      let missing : 3 + bc + 2 - 8 ≡ bc - 3 = omega arith in
      let stops : rtu_unwrap s frame 8 ≡ some (stopped (pos (bc - 3))) =
        rw (g4, g5, g6, missing) refl in
      ap (λ b. delivered b s) (read_built v ready low high)
      ∙ ap (λ o. o >>= slave_dispatch s frame) (unwrap-rtu_unwrap s l.framed frame 8 ∙ stops)
