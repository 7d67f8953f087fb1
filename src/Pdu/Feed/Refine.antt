-- ===== src/Pdu/Feed/Refine.antt =====
-- That a session over RTU is a file of registers (src/pdu.c, src/framer_rtu.c, src/crc16.c).
pub mod Reads
pub mod Writes
pub mod Sessions
use pamodbus.Common.{
  ℕ, zero, suc, ◌+◌, ◌-◌, ◌*◌, ◌≤◌, ◌<◌, ◌^◌, List, [], ◌∷◌, ◌++◌, some, Option, ℤ, pos, false,
  ◌>>=◌, deref,
}
use pamodbus.Common.{
  ◌≡◌, refl, sym, ap, ap₂, ◌∙◌, subst, arith, take, drop, length, length-take, length-drop,
  length-append, take-append, take-append-drop, append-nil,
}
use pamodbus.Context.{Modbus, Result, ReadFn, WriteOneFn, rtu_ops, pa_ok}
use pamodbus.Crc.Reference.{reference_crc}
use pamodbus.Framer.Frames.{rtu_adu, crc_bytes}
use pamodbus.Framer.Rtu.{wrong_slave}
use pamodbus.Pdu.Wire.Layout.{IsWords, regs_bytes, length-regs_bytes}
use pamodbus.Pdu.Build.Payload.{fixed_pdu}
use pamodbus.Pdu.Build.Sent.{IsReady, requests_sent}
use pamodbus.Pdu.Master.{clear_response}
use pamodbus.Pdu.Master.Response.{answer_pdu}
use pamodbus.Pdu.Respond.{slave_respond}
use pamodbus.Pdu.Respond.Registers.{IsRead, slave_respond-registers}
use pamodbus.Pdu.Respond.Written.{slave_respond-register}
use pamodbus.Pdu.Feed.{master_feed, slave_feed}
use pamodbus.Pdu.Feed.Roundtrip.{
  IsListening, delivered, read_built, read_registers_arrive, write_register_arrives,
}
use pamodbus.Pdu.Feed.Transaction.{asked, master_feed-registers}
use pamodbus.Pdu.Feed.Received.{master_feed-echo}
use pamodbus.Pdu.Feed.Session.{
  Op, read_regs, write_reg, update, shown_by, changed_by, replies, changed, IsAllowed, AreAllowed,
  exchange, request, response, session,
}

-- Callbacks that keep a file of `size` registers of 16 bits in the world, where `regs` finds it.
pub record IsRegisterFile {W : Type 0} (rcb : ReadFn W) (wcb : WriteOneFn W) (regs : W → List ℕ)
    (size : ℕ) : Type 0 where
  pub sized : (w : W) → length (regs w) ≡ size
  pub words : (w : W) → IsWords (regs w)
  pub reads :
      (a n : ℕ) (w : W)
      → a + n ≤ size
      → rcb a n w ≡ (pos 0, take n (drop a (regs w)), (rcb a n w).2)
  pub reads_keep : (a n : ℕ) (w : W) → a + n ≤ size → regs (rcb a n w).2 ≡ regs w
  pub writes : (a v : ℕ) (w : W) → a < size → v < 2 ^ 16 → wcb a v w ≡ (pos 0, (wcb a v w).1)
  pub writes_update :
      (a v : ℕ) (w : W) → a < size → v < 2 ^ 16 → regs (wcb a v w).1 ≡ update a v (regs w)

-- A master and a slave that answer to each other's address and have room for their frames.
pub record IsLinked {W : Type 0} (rcb : ReadFn W) (wcb : WriteOneFn W) (m s : Modbus W)
    : Type 0 where
  pub m_framed : m.framer ≡ rtu_ops
  pub s_framed : s.framer ≡ rtu_ops
  pub m_unit : wrong_slave m s.slave ≡ false
  pub s_unit : wrong_slave s m.slave ≡ false
  pub m_id : m.slave < 256
  pub s_id : s.slave < 256
  pub m_room : 8 ≤ length (deref m.txbuf)
  pub m_size : 8 ≤ m.txbuf_size
  pub s_room : 255 ≤ length (deref s.txbuf)
  pub s_size : 255 ≤ s.txbuf_size
  pub m_regs : length m.last_reg_data ≡ 128
  pub s_regs : length s.slave_reg_data ≡ 128
  pub reading : s.callbacks.read_holding_registers_cb ≡ some rcb
  pub writing : s.callbacks.write_single_register_cb ≡ some wcb

-- The four steps of an exchange, one after the other.
pub exchange-steps :
    {W : Type 0} (built : Result W) (s s' s'' m' m'' : Modbus W) (b fed answered ret : ℤ)
    → built ≡ some (b, m')
    → slave_feed s (deref m'.txbuf) m'.tx_len ≡ some (fed, s')
    → slave_respond s' ≡ some (answered, s'')
    → master_feed m' (deref s''.txbuf) s''.tx_len ≡ some (ret, m'')
    → exchange built s ≡ some (ret, m'', s'')
exchange-steps built s s' s'' m' m'' b fed answered ret e₁ e₂ e₃ e₄ = rw (e₁, e₂, e₃, e₄) refl

-- A frame at the front of a buffer leaves its size.
pub length-frame :
    (id : ℕ) (pdu mem : List ℕ)
    → length pdu + 3 ≤ length mem
    → length (rtu_adu id pdu ++ drop (length pdu + 3) mem) ≡ length mem
length-frame id pdu mem h =
    let crc = crc_bytes (reference_crc 0xffff (id ∷ pdu)) in
    omega (
      arith,
      length-append (rtu_adu id pdu) (drop (length pdu + 3) mem),
      length-drop (length pdu + 3) mem,
      length-append pdu crc,
    )

-- An exchange for an operation ends as the specification says.
pub record Refined {W : Type 0} (rcb : ReadFn W) (wcb : WriteOneFn W) (regs : W → List ℕ) (op : Op)
    (m s : Modbus W) : Type 0 where
  pub m' : Modbus W
  pub s' : Modbus W
  pub ends : exchange (request op m) s ≡ some (pa_ok, m', s')
  pub shows : response m' ≡ shown_by op (regs s.world)
  pub changes : regs s'.world ≡ changed_by op (regs s.world)
  pub linked : IsLinked rcb wcb m' s'

module _ {W : Type 0} (rcb : ReadFn W) (wcb : WriteOneFn W) (m s : Modbus W)
    (l : IsLinked rcb wcb m s) where
  pub m-IsReady : IsReady m 8
  m-IsReady = record { framed = l.m_framed; room = l.m_room; size = l.m_size; unit = l.m_id }

  pub s-IsListening : IsListening s m.slave
  s-IsListening = record { framed = l.s_framed; unit = l.s_unit }
