-- ===== src/Pdu/Feed/Session.antt =====
-- Masters and slaves over RTU, seen as a file of registers (src/pdu.c, src/framer_rtu.c): the requests
-- of a session one after the other.
use pamodbus.Common.{ℕ, zero, suc, ◌+◌, ◌≤◌, ◌<◌, ◌^◌, List, [], ◌∷◌, some, Option, ℤ, ◌>>=◌, deref}
use pamodbus.Common.{take, drop}
use pamodbus.Context.{Modbus, Result, pa_ok}
use pamodbus.Pdu.Build.{build_read_holding_registers, build_write_single_register}
use pamodbus.Pdu.Respond.{slave_respond}
use pamodbus.Pdu.Feed.{master_feed, slave_feed}

-- What the application of the master asks for: `n` registers from an address on (FC 03), or one register
-- to be written (FC 06).
pub data Op : Type 0 where
  read_regs : ℕ → ℕ → Op
  write_reg : ℕ → ℕ → Op

-- The specification: the registers are a list; an operation shows some of them, or changes one.
abbrev pub update : ℕ → ℕ → List ℕ → List ℕ
update a v [] = []
update zero v (x ∷ xs) = v ∷ xs
update (suc a) v (x ∷ xs) = x ∷ update a v xs

abbrev pub shown_by : Op → List ℕ → List ℕ
shown_by (read_regs a n) regs = take n (drop a regs)
shown_by (write_reg a v) regs = []

abbrev pub changed_by : Op → List ℕ → List ℕ
changed_by (read_regs a n) regs = regs
changed_by (write_reg a v) regs = update a v regs

abbrev pub replies : List Op → List ℕ → List (ℤ × List ℕ)
replies [] regs = []
replies (op ∷ ops) regs = (pa_ok, shown_by op regs) ∷ replies ops (changed_by op regs)

abbrev pub changed : List Op → List ℕ → List ℕ
changed [] regs = regs
changed (op ∷ ops) regs = changed ops (changed_by op regs)

-- Reads are of 1 to 125 registers that exist, from an address below 256; writes are to a register that
-- exists.
abbrev pub IsAllowed : ℕ → Op → Type 0
IsAllowed size (read_regs a n) = (a < 256) × (1 ≤ n) × (n ≤ 125) × (a + n ≤ size)
IsAllowed size (write_reg a v) = (a < size) × (a < 2 ^ 16) × (v < 2 ^ 16)

abbrev pub AreAllowed : ℕ → List Op → Type 0
AreAllowed size [] = Unit {0}
AreAllowed size (op ∷ ops) = IsAllowed size op × AreAllowed size ops

-- The program: a request on its way to the slave, its answer on the way back.
module _ {W : Type 0} where
  abbrev pub exchange : Result W → Modbus W → Option (ℤ × Modbus W × Modbus W)
  exchange built s = built >>= λ (b, m). slave_feed s (deref m.txbuf) m.tx_len >>= λ (fed, s).
      slave_respond s >>= λ (answered, s).
      master_feed m (deref s.txbuf) s.tx_len >>= λ (ret, m). some (ret, m, s)

  abbrev pub request : Op → Modbus W → Result W
  request (read_regs a n) m = build_read_holding_registers m a n
  request (write_reg a v) m = build_write_single_register m a v

  -- The registers that the master has from the response.
  abbrev pub response : Modbus W → List ℕ
  response m = take m.last_reg_count m.last_reg_data

  abbrev pub session :
      List Op → Modbus W → Modbus W → Option (List (ℤ × List ℕ) × Modbus W × Modbus W)
  session [] m s = some ([], m, s)
  session (op ∷ ops) m s = exchange (request op m) s >>= λ (ret, m, s).
      session ops m s >>= λ (rest, m', s'). some ((ret, response m) ∷ rest, m', s')
