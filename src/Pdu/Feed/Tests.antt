-- ===== src/Pdu/Feed/Tests.antt =====
-- Requests and transactions over RTU on concrete data.
use pamodbus.Common.{
  ℕ, zero, suc, ◌+◌, ◌%◌, ◌^◌, ◌<◌, ◌≤◌, List, take, drop, [], ◌∷◌, ◌++◌, some, ◌≡◌, refl, arith,
  replicate, pos, ◌>>=◌, deref, length, if◌then◌else◌, ◌&&◌,
}
use pamodbus.Context.{Modbus, init, pa_ok, pa_err_exception, ReadFn, WriteOneFn}
use pamodbus.Context.Config.{
  set_slave, set_txbuf, set_read_holding_registers_cb, set_write_single_register_cb,
}
use pamodbus.Framer.Frames.{rtu_adu}
use pamodbus.Framer.Rtu.{wrong_slave}
use pamodbus.Pdu.Build.{
  build_write_multiple_registers, build_write_single_register, build_read_holding_registers,
}
use pamodbus.Pdu.Build.{
  build_read_coils, build_read_discrete_inputs, build_read_input_registers, build_write_single_coil,
}
use pamodbus.Crc.Reference.{IsBytes}
use pamodbus.Pdu.Build.{set_coils}
use pamodbus.Pdu.Build.Coils.{coil_at}
use pamodbus.Pdu.Build.Packed.{within, is_on, set_coils-coil_at}
use pamodbus.Pdu.Build.Payload.{fixed_pdu, registers_pdu}
use pamodbus.Pdu.Build.Sent.{IsReady, sent, requests_sent, build_write_multiple_registers-sent}
use pamodbus.Pdu.Respond.Registers.{IsRead}
use pamodbus.Pdu.Respond.{slave_respond_error}
use pamodbus.Pdu.Feed.{master_feed}
use pamodbus.Pdu.Feed.Exceptions.{exception_arrives}
use pamodbus.Pdu.Feed.Roundtrip.{IsListening, delivered, write_registers_arrive}
use pamodbus.Pdu.Feed.Roundtrip.{read_registers_wait}
use pamodbus.Pdu.Feed.Transaction.{read_transaction, asked, read_transaction-registers}
use pamodbus.Pdu.Feed.Session.{update, read_regs, write_reg, session}
use pamodbus.Pdu.Feed.Refine.{IsRegisterFile, IsLinked}
use pamodbus.Pdu.Feed.Refine.Sessions.{session-replies}

-- A context with the address 1 and a transmit buffer of 16 bytes, and a callback that gives the
-- registers 7 and 0x1234.
abbrev values_cb : ReadFn ℕ
values_cb = λ addr count w. (pos 0, (7 ∷ 0x1234 ∷ []) ++ [], w + 1)

abbrev device : Modbus ℕ
unfolding init set_slave set_txbuf set_read_holding_registers_cb
device =
    set_read_holding_registers_cb (set_txbuf (set_slave (init 1 0) 1) (some (replicate 16 0)) 16)
      (some values_cb)

device-IsReady : (n : ℕ) → n ≤ 16 → IsReady device n
unfolding device
device-IsReady n h = record { framed = refl; room = h; size = h; unit = omega arith }

device-IsListening : IsListening device 1
unfolding device wrong_slave
device-IsListening = record { framed = refl; unit = refl }

-- Read two registers from address 3: refused are 0 and 126.
requests_sent_example :
    (build_read_coils device 3 2 ≡ sent device (fixed_pdu 1 3 2))
    × (build_read_discrete_inputs device 3 2 ≡ sent device (fixed_pdu 2 3 2))
    × (build_read_holding_registers device 3 2 ≡ sent device (fixed_pdu 3 3 2))
    × (build_read_input_registers device 3 2 ≡ sent device (fixed_pdu 4 3 2))
    × (build_write_single_coil device 3 2 ≡ sent device (fixed_pdu 5 3 0xff00))
    × (build_write_single_register device 3 2 ≡ sent device (fixed_pdu 6 3 2))
requests_sent_example =
    requests_sent device (device-IsReady 8 (omega arith)) 3 2 (omega arith) (omega arith)

build_write_multiple_registers-sent_example :
    build_write_multiple_registers device 3 (7 ∷ 8 ∷ []) 2
    ≡ sent device (registers_pdu 3 (7 ∷ 8 ∷ []))
build_write_multiple_registers-sent_example =
    build_write_multiple_registers-sent device 3 (7 ∷ 8 ∷ []) [] (omega arith) (omega arith)
      (omega arith) (omega arith) (device-IsReady 13 (omega arith))

write_registers_arrive_example :
    delivered (build_write_multiple_registers device 300 (7 ∷ 8 ∷ []) 2) device
    ≡ some (
      pa_ok,
      record device {
        last_function = 0x10;
        slave_addr = 300;
        slave_count = 2;
        slave_reg_count = 2;
        slave_reg_data = 7 ∷ 8 ∷ replicate 126 0;
        slave_data_valid = 1;
      },
    )
unfolding device
write_registers_arrive_example =
    write_registers_arrive device device device-IsListening 300 (omega arith) (7 ∷ 8 ∷ []) []
      (replicate 2 0) (replicate 126 0) (device-IsReady 13 (omega arith)) (omega arith)
      (omega arith) (omega arith) refl refl

-- At address 0x1000 the slave waits for 13 bytes more.
read_registers_wait_example :
    delivered (build_read_holding_registers device 0x1000 2) device ≡ some (pos 13, device)
unfolding device
read_registers_wait_example =
    read_registers_wait device device device-IsListening 0x1000 (omega arith) 2
      (device-IsReady 8 (omega arith)) (omega arith) (omega arith) (omega arith) (omega arith)

asked-IsRead : IsRead (asked device 3 2) values_cb ((7 ∷ 0x1234 ∷ []) ++ []) 1
unfolding device
asked-IsRead = record { registered = refl; gives = refl; fits = omega arith }

read_transaction-registers_example :
    read_transaction device device 3 2
    ≡ some (
      pa_ok,
      record device {
        txbuf = some (rtu_adu 1 (fixed_pdu 3 3 2) ++ replicate 8 0);
        tx_len = 8;
        last_function = 3;
        last_error = pa_ok;
        last_exception = 0;
        last_coil_count = 0;
        last_reg_count = 2;
        last_reg_data = 7 ∷ 0x1234 ∷ replicate 126 0;
      },
    )
unfolding device
read_transaction-registers_example =
    read_transaction-registers device device 3 (7 ∷ 0x1234 ∷ []) [] (replicate 2 0)
      (replicate 126 0) values_cb 1 device-IsListening device-IsListening
      (device-IsReady 8 (omega arith)) (device-IsReady 9 (omega arith)) (omega arith) (omega arith)
      (omega arith) (omega arith) asked-IsRead refl refl

-- Two registers, as two numbers.
abbrev two : ℕ × ℕ → List ℕ
two w = w.0 % 2 ^ 16 ∷ w.1 % 2 ^ 16 ∷ []

abbrev two_read_cb : ReadFn (ℕ × ℕ)
two_read_cb = λ addr count w. (pos 0, take count (drop addr (two w)), w)

abbrev two_store : ℕ → ℕ → ℕ × ℕ → ℕ × ℕ
two_store zero v w = (v, w.1)
two_store (suc a) v w = (w.0, v)

abbrev two_write_cb : WriteOneFn (ℕ × ℕ)
two_write_cb = λ addr v w. (pos 0, two_store addr v w)

two_store-update :
    (a v : ℕ) (w : ℕ × ℕ) → a < 2 → v < 2 ^ 16 → two (two_store a v w) ≡ update a v (two w)
two_store-update zero v w h hv = let e : v % 2 ^ 16 ≡ v = omega arith in rw e refl
two_store-update (suc zero) v w h hv = let e : v % 2 ^ 16 ≡ v = omega arith in rw e refl
two_store-update (suc (suc a)) v w h hv = absurd (omega arith)

two-IsRegisterFile : IsRegisterFile two_read_cb two_write_cb two 2
two-IsRegisterFile = record {
  sized = λ w. refl;
  words = λ w. omega arith;
  reads = λ a n w h. refl;
  reads_keep = λ a n w h. refl;
  writes = λ a v w h hv. refl;
  writes_update = λ a v w h hv. two_store-update a v w h hv;
}

abbrev station : Modbus (ℕ × ℕ)
unfolding init set_slave set_txbuf set_read_holding_registers_cb set_write_single_register_cb
station =
    set_write_single_register_cb
      (set_read_holding_registers_cb
        (set_txbuf (set_slave (init 1 (7, 8)) 1) (some (replicate 256 0)) 256) (some two_read_cb))
      (some two_write_cb)

station-IsLinked : IsLinked two_read_cb two_write_cb station station
unfolding station wrong_slave
station-IsLinked = record {
  m_framed = refl;
  s_framed = refl;
  m_unit = refl;
  s_unit = refl;
  m_id = omega arith;
  s_id = omega arith;
  m_room = omega arith;
  m_size = omega arith;
  s_room = omega arith;
  s_size = omega arith;
  m_regs = refl;
  s_regs = refl;
  reading = refl;
  writing = refl;
}

-- Write 9 to register 1, then read both.
session-replies_example :
    (m' s' : Modbus (ℕ × ℕ)) × (session (write_reg 1 9 ∷ read_regs 0 2 ∷ []) station station
      ≡ some ((pa_ok, []) ∷ (pa_ok, 7 ∷ 9 ∷ []) ∷ [], m', s'))
    × (two s'.world ≡ 7 ∷ 9 ∷ [])
unfolding station
session-replies_example =
    session-replies two_read_cb two_write_cb two 2 two-IsRegisterFile
      (write_reg 1 9 ∷ read_regs 0 2 ∷ []) station station station-IsLinked
      (omega arith, (omega arith, tt))

-- The slave refuses a read with the code 2.
exception_arrives_example :
    (slave_respond_error (asked device 3 2) 2 >>= λ (ret, s).
    master_feed device (deref s.txbuf) s.tx_len)
    ≡ some (
      pa_err_exception,
      record device { last_function = 0x83; last_exception = 2; last_error = pa_err_exception },
    )
unfolding device
exception_arrives_example =
    exception_arrives device (asked device 3 2) 2 (omega arith) (omega arith) (omega arith)
      (record { framed = refl; room = omega arith; size = omega arith; unit = omega arith })
      device-IsListening

-- The first and the third of three coils are on.
set_coils-coil_at_example :
    (b : List ℕ) × (set_coils (replicate 8 0) (1 ∷ 0 ∷ 2 ∷ []) 0 3 ≡ some b)
    × (length b ≡ 8)
    × IsBytes b
    × ((j : ℕ)
        → coil_at b j ≡ (
            if within 0 3 j && is_on (1 ∷ 0 ∷ 2 ∷ []) j then some 1 else coil_at (replicate 8 0) j))
set_coils-coil_at_example =
    set_coils-coil_at (replicate 8 0) (1 ∷ 0 ∷ 2 ∷ []) 0 3 (omega arith) (omega arith) (omega arith)
