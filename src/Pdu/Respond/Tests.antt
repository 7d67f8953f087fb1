-- ===== src/Pdu/Respond/Tests.antt =====
-- The answers of `pa_modbus_slave_respond` (src/pdu.c) on a concrete context.
use pamodbus.Common.{
  Bool, true, false, ◌≡◌, ◌≤◌, List, [], length, is_zero, leb, ℤ, negsuc, ℕ, ◌+◌, some, refl, arith,
  replicate, length-replicate, pos,
}
use pamodbus.Context.{Modbus, init, ReadFn}
use pamodbus.Context.Config.{set_slave, set_txbuf, set_read_holding_registers_cb}
use pamodbus.Context.Valid.{Keeps}
use pamodbus.Pdu.Respond.{slave_respond}
use pamodbus.Pdu.Respond.Framed.{IsFramed}
use pamodbus.Pdu.Respond.Served.{IsServed}
use pamodbus.Pdu.Respond.Safe.{slave_respond-Keeps}

-- A callback that refuses to read behind the register 99, with nothing stored then.
abbrev fives : Bool → ℕ → ℕ → ℤ × List ℕ × ℕ
fives true n w = (pos 0, replicate n 5, w + 1)
fives false n w = (negsuc 0, [], w)

abbrev fives_cb : ReadFn ℕ
fives_cb = λ addr n w. fives (leb (addr + n) 100) n w

fives-filled :
    (inside : Bool) (n w : ℕ)
    → (length ((fives inside n w).1) ≤ n)
      × (is_zero ((fives inside n w).0) ≡ true → length ((fives inside n w).1) ≡ n)
fives-filled true n w =
    let l : length (replicate {A = ℕ} n 5) ≡ n = length-replicate {A = ℕ} n 5 in
    (omega arith, λ ok. l)
fives-filled false n w = (omega arith, λ ok. absurd cc)

-- The slave is asked for two registers.
abbrev answerer : Modbus ℕ
unfolding init set_slave set_txbuf set_read_holding_registers_cb
answerer =
    record (set_read_holding_registers_cb
      (set_txbuf (set_slave (init 1 0) 1) (some (replicate 256 0)) 256) (some fives_cb)) {
        last_function = 3;
        slave_count = 2;
      }

answerer-IsFramed : IsFramed answerer
unfolding answerer
answerer-IsFramed = record {
  valid = omega arith;
  over_rtu = refl;
  size = omega arith;
  room = omega arith;
}

answerer-IsServed : IsServed answerer
unfolding answerer
answerer-IsServed = record {
  coils = tt;
  inputs = tt;
  holding = λ a n w. fives-filled (leb (a + n) 100) n w;
  input_regs = tt;
}

slave_respond-Keeps_example : Keeps (slave_respond answerer)
unfolding answerer
slave_respond-Keeps_example =
    slave_respond-Keeps answerer answerer-IsFramed answerer-IsServed (record {
      bits = λ h. omega arith;
      regs = λ h. omega arith;
      fifo = λ e. absurd (omega arith);
      file = λ e. absurd (omega arith);
    })
