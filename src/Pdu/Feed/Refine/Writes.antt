-- ===== src/Pdu/Feed/Refine/Writes.antt =====
-- An exchange that writes one register (FC 06 of src/pdu.c), over RTU.
use pamodbus.Common.{ℕ, ◌≤◌, ◌<◌, ◌^◌, List, [], ◌∷◌, ◌++◌, some, deref}
use pamodbus.Common.{◌≡◌, refl, sym, ap, ◌∙◌, arith, drop, length}
use pamodbus.Context.{Modbus, ReadFn, WriteOneFn}
use pamodbus.Framer.Frames.{rtu_adu}
use pamodbus.Framer.Rtu.{wrong_slave}
use pamodbus.Pdu.Build.Payload.{fixed_pdu}
use pamodbus.Pdu.Build.Sent.{IsReady, requests_sent}
use pamodbus.Pdu.Master.{clear_response}
use pamodbus.Pdu.Respond.Written.{slave_respond-register}
use pamodbus.Pdu.Feed.Roundtrip.{IsListening, delivered, write_register_arrives}
use pamodbus.Pdu.Feed.Received.{master_feed-echo}
use pamodbus.Pdu.Feed.Session.{write_reg, request}
use pamodbus.Pdu.Feed.Refine.{
  IsRegisterFile, IsLinked, Refined, exchange-steps, length-frame, m-IsReady, s-IsListening,
}

uncons : (xs : List ℕ) → 1 ≤ length xs → (x : ℕ) × (ys : List ℕ) × (xs ≡ x ∷ ys)
uncons [] h = absurd (omega arith)
uncons (x ∷ xs) h = (x, xs, refl)

module _ {W : Type 0} (rcb : ReadFn W) (wcb : WriteOneFn W) (regs : W → List ℕ) (size : ℕ)
    (file : IsRegisterFile rcb wcb regs size) (m s : Modbus W) (l : IsLinked rcb wcb m s) (a v : ℕ)
    (there : a < size) (small : a < 2 ^ 16) (word : v < 2 ^ 16) where
  abbrev stored : W
  stored = (wcb a v s.world).1

  abbrev telling : Modbus W
  telling = record m {
    txbuf = some (rtu_adu m.slave (fixed_pdu 6 a v) ++ drop 8 (deref m.txbuf));
    tx_len = 8;
  }

  abbrev told : List ℕ → Modbus W
  told rest = record s {
    last_function = 6;
    slave_addr = a;
    slave_count = 1;
    slave_reg_count = 1;
    slave_reg_data = v ∷ rest;
    slave_data_valid = 1;
  }

  abbrev write_master : Modbus W
  write_master = clear_response (record telling { last_function = 6 })

  abbrev write_slave : List ℕ → Modbus W
  write_slave rest = record (told rest) {
    world = stored;
    txbuf = some (rtu_adu s.slave (fixed_pdu 6 a v) ++ drop 8 (deref s.txbuf));
    tx_len = 8;
  }

  write-IsLinked :
      (rest : List ℕ) → length (v ∷ rest) ≡ 128 → IsLinked rcb wcb write_master (write_slave rest)
  unfolding wrong_slave clear_response
  write-IsLinked rest full =
      let mb = length-frame m.slave (fixed_pdu 6 a v) (deref m.txbuf) l.m_room in
      let sb = length-frame s.slave (fixed_pdu 6 a v) (deref s.txbuf) (omega (arith, l.s_room)) in
      record {
        m_framed = l.m_framed;
        s_framed = l.s_framed;
        m_unit = l.m_unit;
        s_unit = l.s_unit;
        m_id = l.m_id;
        s_id = l.s_id;
        m_room = omega (arith, mb, l.m_room);
        m_size = l.m_size;
        s_room = omega (arith, sb, l.s_room);
        s_size = l.s_size;
        m_regs = l.m_regs;
        s_regs = full;
        reading = l.reading;
        writing = l.writing;
      }

  pub write-Refined : Refined rcb wcb regs (write_reg a v) m s
  unfolding wrong_slave clear_response
  write-Refined =
      let (old, rest, holds) = uncons s.slave_reg_data (omega (arith, l.s_regs)) in
      let full : length (v ∷ rest) ≡ 128 = sym (ap length holds) ∙ l.s_regs in
      let ready : IsReady (told rest) 8 = record {
        framed = l.s_framed;
        room = omega (arith, l.s_room);
        size = omega (arith, l.s_size);
        unit = l.s_id;
      } in
      let listening : IsListening telling s.slave = record {
        framed = l.m_framed;
        unit = l.m_unit;
      } in
      let e₁ = (requests_sent m (m-IsReady rcb wcb m s l) a v small word).5 in
      let e₂ =
        ap (λ b. delivered b s) (sym e₁)
        ∙ write_register_arrives m s (s-IsListening rcb wcb m s l) a small v old rest
            (m-IsReady rcb wcb m s l) word holds in
      let e₃ =
        slave_respond-register (told rest) wcb v rest stored refl refl small word l.writing
          (file.writes a v s.world there word) ready in
      let e₄ =
        master_feed-echo telling s.slave listening (drop 8 (deref s.txbuf)) a v l.s_id small word in
      record {
        m' = write_master;
        s' = write_slave rest;
        ends =
            exchange-steps (request (write_reg a v) m) s (told rest) (write_slave rest) telling
              write_master _ _ _ _ e₁ e₂ e₃ e₄;
        shows = refl;
        changes = file.writes_update a v s.world there word;
        linked = write-IsLinked rest full;
      }
