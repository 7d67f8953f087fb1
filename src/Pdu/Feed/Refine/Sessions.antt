-- ===== src/Pdu/Feed/Refine/Sessions.antt =====
-- A session over RTU, exchange by exchange (src/pdu.c).
use pamodbus.Common.{ℕ, List, [], ◌∷◌, some, ℤ, ◌>>=◌}
use pamodbus.Common.{◌≡◌, refl, ap, ap₂, ◌∙◌}
use pamodbus.Context.{Modbus, ReadFn, WriteOneFn, pa_ok}
use pamodbus.Pdu.Feed.Roundtrip.{}
use pamodbus.Pdu.Feed.Session.{
  Op, read_regs, write_reg, replies, changed, IsAllowed, AreAllowed, exchange, request, response,
  session,
}
use pamodbus.Pdu.Feed.Refine.{IsRegisterFile, IsLinked, Refined}
use pamodbus.Pdu.Feed.Refine.Reads.{read-Refined}
use pamodbus.Pdu.Feed.Refine.Writes.{write-Refined}

-- A session goes on behind its first exchange.
session-step :
    {W : Type 0} (op : Op) (ops : List Op) (m s m' s' m'' s'' : Modbus W) {ret : ℤ}
    {rest : List (ℤ × List ℕ)}
    → exchange (request op m) s ≡ some (ret, m', s')
    → session ops m' s' ≡ some (rest, m'', s'')
    → session (op ∷ ops) m s ≡ some ((ret, response m') ∷ rest, m'', s'')
session-step op ops m s m' s' m'' s'' e₁ e₂ =
    ap
      (λ o. o >>= λ (ret, m, s).
        session ops m s >>= λ (rest, m', s'). some ((ret, response m) ∷ rest, m', s'))
      e₁
    ∙ rw e₂ refl

module _ {W : Type 0} (rcb : ReadFn W) (wcb : WriteOneFn W) (regs : W → List ℕ) (size : ℕ)
    (file : IsRegisterFile rcb wcb regs size) where
  exchange-Refined :
      (op : Op) (m s : Modbus W)
      → IsLinked rcb wcb m s
      → IsAllowed size op
      → Refined rcb wcb regs op m s
  exchange-Refined (read_regs a n) m s l (low_addr, low, high, there) =
      read-Refined rcb wcb regs size file m s l a n low_addr low high there
  exchange-Refined (write_reg a v) m s l (there, small, word) =
      write-Refined rcb wcb regs size file m s l a v there small word

  -- A master and a slave over RTU implement a file of registers: for a session of any length, of reads of 1
  -- to 125 registers from addresses below 256 and of writes of one register, between a master and a slave that
  -- answer to each other's address, have room for their frames and hold 128 registers of data, with callbacks
  -- of the slave that keep the registers, every exchange ends with PA_OK, the master has the registers that
  -- the specification shows, and the slave's registers are those that the specification leaves.
  pub session-replies :
      (ops : List Op) (m s : Modbus W)
      → IsLinked rcb wcb m s
      → AreAllowed size ops
      → (m' s' : Modbus W) × (session ops m s ≡ some (replies ops (regs s.world), m', s'))
        × (regs s'.world ≡ changed ops (regs s.world))
  session-replies [] m s l h = (m, s, refl, refl)
  session-replies (op ∷ ops) m s l (allowed, h) =
      let r = exchange-Refined op m s l allowed in
      let (m', s', e, c) = session-replies ops r.m' r.s' r.linked h in
      (
        m',
        s',
        session-step op ops m s r.m' r.s' m' s' r.ends e
            ∙ ap₂ (λ shown rs. some ((pa_ok, shown) ∷ replies ops rs, m', s')) r.shows r.changes,
        c ∙ ap (changed ops) r.changes,
      )
