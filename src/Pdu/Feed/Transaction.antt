-- ===== src/Pdu/Feed/Transaction.antt =====
-- A whole transaction over RTU: the master asks for holding registers, the slave answers, the
-- master reads the answer (src/pdu.c, src/framer_rtu.c, src/crc16.c).
use pamodbus.Common.{ℕ, ◌+◌, ◌*◌, ◌≤◌, ◌<◌, List, ◌∷◌, ◌++◌, some, true}
use pamodbus.Common.{
  ◌≡◌, refl, sym, arith, ap, ap₂, ◌∙◌, append_assoc, length, ltb, leb, if◌then◌else◌, ◌>>=◌, deref,
  drop,
}
use pamodbus.Crc.Reference.{reference_crc}
use pamodbus.Context.{Modbus, ReadFn, Result, pa_ok, pa_err_invalid_slave}
use pamodbus.Framer.Outcome.{pdu_at, stopped}
use pamodbus.Framer.Frames.{rtu_adu, crc_bytes}
use pamodbus.Framer.Ops.{unwrap-rtu_unwrap}
use pamodbus.Framer.Rtu.{wrong_slave, expected_len, expect_read}
use pamodbus.Framer.Rtu.Complete.{rtu_unwrap-adu}
use pamodbus.Pdu.Wire.Layout.{IsWords, regs_bytes, length-regs_bytes}
use pamodbus.Pdu.Build.{build_read_holding_registers}
use pamodbus.Pdu.Build.Payload.{fixed_pdu}
use pamodbus.Pdu.Build.Sent.{IsReady, regs_bytes-IsBytes}
use pamodbus.Pdu.Master.{parse_master_response}
use pamodbus.Pdu.Master.Response.{answer_pdu, parse_master_response-registers}
use pamodbus.Pdu.Respond.{slave_respond}
use pamodbus.Pdu.Respond.Registers.{IsRead, slave_respond-registers}
use pamodbus.Pdu.Feed.{master_feed, master_dispatch}
use pamodbus.Pdu.Feed.Roundtrip.{IsListening, delivered, read_built, read_registers_arrive}

module _ {W : Type 0} (m : Modbus W) (id : ℕ) (l : IsListening m id) (hid : id < 256)
    (vs old rest extra : List ℕ) (words : IsWords vs) (low : 1 ≤ length vs) (high : length vs ≤ 125)
    (holds : m.last_reg_data ≡ old ++ rest) (same : length old ≡ length vs) where
  -- The frame of an answer with registers reaches the master's registers.
  pub master_feed-registers :
      master_feed m (rtu_adu id (answer_pdu 3 vs) ++ extra) (length (answer_pdu 3 vs) + 3)
      ≡ some (
        pa_ok,
        record m {
          last_function = 3;
          last_error = pa_ok;
          last_exception = 0;
          last_coil_count = 0;
          last_reg_count = length vs;
          last_reg_data = vs ++ rest;
        },
      )
  unfolding master_feed master_dispatch expected_len expect_read
  master_feed-registers =
      let n = length vs in
      let pdu = answer_pdu 3 vs in
      let len = length pdu + 3 in
      let frame = rtu_adu id pdu ++ extra in
      let payload = n * 2 ∷ regs_bytes vs in
      let crc = crc_bytes (reference_crc 0xffff (id ∷ pdu)) in
      let count : length pdu ≡ 2 + n * 2 = omega (arith, length-regs_bytes vs) in
      let g1 : leb 4 len ≡ true = ground (arith, count) in
      let g2 : leb (n * 2) 250 ≡ true = ground arith in
      let g3 : ltb 0 (n * 2) ≡ true = ground arith in
      let total : 3 + n * 2 + 2 ≡ length payload + 4 = omega (arith, length-regs_bytes vs) in
      ap (λ o. o >>= master_dispatch m frame)
        (unwrap-rtu_unwrap m l.framed frame len
          ∙ rtu_unwrap-adu m id 3 payload extra len
              (hid, (omega arith, (omega arith, regs_bytes-IsBytes vs words))) (omega arith)
              (rw (g1, g2, g3, total) refl)
          ∙ ap
              (λ b. if b then some (stopped pa_err_invalid_slave) else some (pdu_at 1 (length pdu)))
              l.unit)
      ∙ ap₂ (λ p k. parse_master_response m p k) (append_assoc pdu crc extra) count
      ∙ parse_master_response-registers m vs old rest (crc ++ extra) words high holds same

-- The master `m` asks, the slave `s` is fed the request and answers, the master is fed the answer.
abbrev pub read_transaction : {W : Type 0} → Modbus W → Modbus W → ℕ → ℕ → Result W
read_transaction m s addr count = build_read_holding_registers m addr count >>= λ (built, m').
    delivered (some (built, m')) s >>= λ (fed, s').
    slave_respond s' >>= λ (answered, s''). master_feed m' (deref s''.txbuf) s''.tx_len

-- The slave once it has the request.
abbrev pub asked : {W : Type 0} → Modbus W → ℕ → ℕ → Modbus W
asked s addr count = record s {
  last_function = 3;
  slave_addr = addr;
  slave_count = count;
  slave_data_valid = 0;
}

module _ {W : Type 0} (m s : Modbus W) (addr : ℕ) (vs post old rest : List ℕ) (cb : ReadFn W)
    (w : W) where
  -- A read transaction of holding registers (FC 03) over RTU succeeds and gives the master the
  -- registers that the slave's callback gave: for an address below 256, 1 to 125 registers, a
  -- master and a slave that answer to each other's address and have room for their frames, and a
  -- callback that succeeds with at least the registers asked for.
  pub read_transaction-registers :
      IsListening s m.slave
      → IsListening m s.slave
      → IsReady m 8
      → IsReady s (5 + length vs * 2)
      → addr < 256
      → 1 ≤ length vs
      → length vs ≤ 125
      → IsWords vs
      → IsRead (asked s addr (length vs)) cb (vs ++ post) w
      → m.last_reg_data ≡ old ++ rest
      → length old ≡ length vs
      → read_transaction m s addr (length vs)
        ≡ some (
          pa_ok,
          record m {
            txbuf = some (rtu_adu m.slave (fixed_pdu 3 addr (length vs)) ++ drop 8 (deref m.txbuf));
            tx_len = 8;
            last_function = 3;
            last_error = pa_ok;
            last_exception = 0;
            last_coil_count = 0;
            last_reg_count = length vs;
            last_reg_data = vs ++ rest;
          },
        )
  unfolding wrong_slave
  read_transaction-registers ls lm rm rs small low high words read holds same =
      let n = length vs in
      let m' : Modbus W = record m {
        txbuf = some (rtu_adu m.slave (fixed_pdu 3 addr n) ++ drop 8 (deref m.txbuf));
        tx_len = 8;
      } in
      let built = read_built m s ls addr (omega arith) n rm low high in
      let ready : IsReady (asked s addr n) (5 + n * 2) = record {
        framed = rs.framed;
        room = rs.room;
        size = rs.size;
        unit = rs.unit;
      } in
      let listening : IsListening m' s.slave = record { framed = lm.framed; unit = lm.unit } in
      ap
        (λ o. o >>= λ (b, c). delivered (some (b, c)) s >>= λ (fed, s').
          slave_respond s' >>= λ (answered, s''). master_feed c (deref s''.txbuf) s''.tx_len)
        built
      ∙ ap
          (λ o. o >>= λ (fed, s').
            slave_respond s' >>= λ (answered, s''). master_feed m' (deref s''.txbuf) s''.tx_len)
          (ap (λ b. delivered b s) (sym built)
            ∙ read_registers_arrive m s ls addr (omega arith) n rm small low high)
      ∙ ap (λ o. o >>= λ (answered, s''). master_feed m' (deref s''.txbuf) s''.tx_len)
          (slave_respond-registers (asked s addr n) cb vs post w read refl refl high words ready)
      ∙ master_feed-registers m' s.slave listening rs.unit vs old rest
          (drop (length (answer_pdu 3 vs) + 3) (deref s.txbuf)) words low high holds same
