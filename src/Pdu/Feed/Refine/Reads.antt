-- ===== src/Pdu/Feed/Refine/Reads.antt =====
-- An exchange that reads holding registers (FC 03 of src/pdu.c), over RTU.
use pamodbus.Common.{ℕ, zero, suc, ◌+◌, ◌*◌, ◌≤◌, ◌<◌, List, [], ◌∷◌, ◌++◌, some, pos, deref}
use pamodbus.Common.{
  ◌≡◌, refl, sym, ap, ◌∙◌, subst, arith, take, drop, length, length-take, length-drop,
  length-append, take-append, take-append-drop, append-nil,
}
use pamodbus.Context.{Modbus, ReadFn, WriteOneFn, pa_ok}
use pamodbus.Framer.Frames.{rtu_adu}
use pamodbus.Framer.Rtu.{wrong_slave}
use pamodbus.Pdu.Wire.Layout.{IsWords, length-regs_bytes}
use pamodbus.Pdu.Build.Payload.{fixed_pdu}
use pamodbus.Pdu.Build.Sent.{IsReady}
use pamodbus.Pdu.Master.Response.{answer_pdu}
use pamodbus.Pdu.Respond.Registers.{IsRead, slave_respond-registers}
use pamodbus.Pdu.Feed.Roundtrip.{IsListening, delivered, read_built, read_registers_arrive}
use pamodbus.Pdu.Feed.Transaction.{asked, master_feed-registers}
use pamodbus.Pdu.Feed.Session.{read_regs, request}
use pamodbus.Pdu.Feed.Refine.{
  IsRegisterFile, IsLinked, Refined, exchange-steps, length-frame, m-IsReady, s-IsListening,
}

take-IsWords : (n : ℕ) (vs : List ℕ) → IsWords vs → IsWords (take n vs)
take-IsWords zero vs h = tt
take-IsWords (suc n) [] h = tt
take-IsWords (suc n) (v ∷ vs) h = (h.0, take-IsWords n vs h.1)

drop-IsWords : (n : ℕ) (vs : List ℕ) → IsWords vs → IsWords (drop n vs)
drop-IsWords zero vs h = h
drop-IsWords (suc n) [] h = tt
drop-IsWords (suc n) (v ∷ vs) h = drop-IsWords n vs h.1

module _ {W : Type 0} (rcb : ReadFn W) (wcb : WriteOneFn W) (regs : W → List ℕ) (size : ℕ)
    (file : IsRegisterFile rcb wcb regs size) (m s : Modbus W) (l : IsLinked rcb wcb m s) (a n : ℕ)
    (low_addr : a < 256) (low : 1 ≤ n) (high : n ≤ 125) (there : a + n ≤ size) where
  abbrev window : List ℕ
  window = take n (drop a (regs s.world))

  length-window : length window ≡ n
  length-window = omega (
    arith,
    length-take n (drop a (regs s.world)),
    length-drop a (regs s.world),
    file.sized s.world,
  )

  abbrev after : W
  after = (rcb a n s.world).2

  asked-IsRead : IsRead (asked s a n) rcb (window ++ []) after
  asked-IsRead = record {
    registered = l.reading;
    gives = file.reads a n s.world there ∙ ap (λ v. (pos 0, v, after)) (sym (append-nil window));
    fits = subst (λ k. k ≤ 128) (sym (ap length (append-nil window) ∙ length-window)) (omega arith);
  }

  -- The master once it has asked, and both sides at the end.
  abbrev asking : Modbus W
  asking = record m {
    txbuf = some (rtu_adu m.slave (fixed_pdu 3 a n) ++ drop 8 (deref m.txbuf));
    tx_len = 8;
  }

  abbrev read_master : Modbus W
  read_master = record asking {
    last_function = 3;
    last_error = pa_ok;
    last_exception = 0;
    last_coil_count = 0;
    last_reg_count = length window;
    last_reg_data = window ++ drop (length window) m.last_reg_data;
  }

  abbrev read_slave : Modbus W
  read_slave = record (asked s a n) {
    world = after;
    txbuf = some (
        rtu_adu s.slave (answer_pdu 3 window)
        ++ drop (length (answer_pdu 3 window) + 3) (deref s.txbuf));
    tx_len = length (answer_pdu 3 window) + 3;
  }

  read-IsLinked : IsLinked rcb wcb read_master read_slave
  unfolding wrong_slave
  read-IsLinked =
      let k = length-window in
      let mb = length-frame m.slave (fixed_pdu 3 a n) (deref m.txbuf) l.m_room in
      let sb =
        length-frame s.slave (answer_pdu 3 window) (deref s.txbuf)
          (omega (arith, l.s_room, k, length-regs_bytes window)) in
      record {
        m_framed = l.m_framed;
        s_framed = l.s_framed;
        m_unit = l.m_unit;
        s_unit = l.s_unit;
        m_id = l.m_id;
        s_id = l.s_id;
        m_room = omega (arith, mb, l.m_room);
        m_size = l.m_size;
        s_room = omega (arith, sb, l.s_room);
        s_size = l.s_size;
        m_regs = omega (
          arith,
          length-append window (drop (length window) m.last_reg_data),
          length-drop (length window) m.last_reg_data,
          k,
          l.m_regs,
        );
        s_regs = l.s_regs;
        reading = l.reading;
        writing = l.writing;
      }

  pub read-Refined : Refined rcb wcb regs (read_regs a n) m s
  unfolding wrong_slave
  read-Refined =
      let vs = window in
      let k = length-window in
      let words : IsWords vs =
        take-IsWords n (drop a (regs s.world))
          (drop-IsWords a (regs s.world) (file.words s.world)) in
      let old = take (length vs) m.last_reg_data in
      let rest = drop (length vs) m.last_reg_data in
      let ready : IsReady (asked s a n) (5 + length vs * 2) = record {
        framed = l.s_framed;
        room = omega (arith, l.s_room, k);
        size = omega (arith, l.s_size, k);
        unit = l.s_id;
      } in
      let listening : IsListening asking s.slave = record {
        framed = l.m_framed;
        unit = l.m_unit;
      } in
      let e₁ =
        read_built m s (s-IsListening rcb wcb m s l) a (omega arith) n (m-IsReady rcb wcb m s l) low
          high in
      let e₂ =
        ap (λ b. delivered b s) (sym e₁)
        ∙ read_registers_arrive m s (s-IsListening rcb wcb m s l) a (omega arith) n
            (m-IsReady rcb wcb m s l) low_addr low high in
      let e₃ =
        slave_respond-registers (asked s a n) rcb vs [] after asked-IsRead refl (sym k)
          (omega (arith, k)) words ready in
      let e₄ =
        master_feed-registers asking s.slave listening l.s_id vs old rest
          (drop (length (answer_pdu 3 vs) + 3) (deref s.txbuf)) words (omega (arith, k))
          (omega (arith, k)) (sym (take-append-drop (length vs) m.last_reg_data))
          (omega (arith, length-take (length vs) m.last_reg_data, l.m_regs, k)) in
      record {
        m' = read_master;
        s' = read_slave;
        ends =
            exchange-steps (request (read_regs a n) m) s (asked s a n) read_slave asking read_master
              _ _ _ _ e₁ e₂ e₃ e₄;
        shows = take-append vs rest;
        changes = file.reads_keep a n s.world there;
        linked = read-IsLinked;
      }
