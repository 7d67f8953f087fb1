-- ===== src/Host/Serial/Tests.antt =====
-- The serial port of host/pa_serial.c on a simulated system.
use pamodbus.Common.{
  ℕ, zero, suc, ◌+◌, ◌≤◌, ◌<◌, min, List, [], ◌∷◌, ◌++◌, take, length, replicate, some,
}
use pamodbus.Common.{◌≡◌, refl, ap, arith, pos, negsuc}
use pamodbus.Context.{Modbus, init}
use pamodbus.Receive.{recv}
use pamodbus.Receive.Send.{send}
use pamodbus.Receive.Safe.{Receives, IsReceiving, counted}
use pamodbus.Context.Config.{set_recv_cb, set_slave, set_rxbuf, set_txbuf, set_send_cb}
use pamodbus.Host.Simulated.{
  System, system, system-IsReader, write_by, tail, fewer, handle, started,
}
use pamodbus.Host.Serial.{send_from, ser_send, build_port}
use pamodbus.Host.Serial.Open.{serial_open, serial_close}
use pamodbus.Host.Serial.Sent.{IsWriter, Sent, ser_send-Sent}
use pamodbus.Host.Serial.Transmit.{Delivered, send-build_port}
use pamodbus.Host.Serial.Balance.{
  Held, IsAccounted, Opened, serial_open-Opened, serial_close-serial_open,
}
use pamodbus.Host.Serial.Listen.{recv-build_port}

write_by-takes :
    (n : ℕ) (bytes : List ℕ) (w : System) (k : ℕ)
    → 0 < length bytes
    → w.signals ≡ n
    → (write_by n bytes w).0 ≡ pos k
    → (0 < k)
      × (k ≤ length bytes)
      × ((write_by n bytes w).1.sent ≡ w.sent ++ take k bytes)
      × ((write_by n bytes w).1.signals ≤ w.signals)
write_by-takes zero bytes w k h s e =
    let n : min 2 (length bytes) ≡ k = ap counted e in
    (omega arith, omega arith, ap (λ j. w.sent ++ take j bytes) n, omega arith)
write_by-takes (suc n) bytes w k h s e = cc

write_by-refuses :
    (n : ℕ) (bytes : List ℕ) (w : System) (k : ℕ)
    → w.signals ≡ n
    → (write_by n bytes w).0 ≡ negsuc k
    → ((write_by n bytes w).1.sent ≡ w.sent)
      × ((write_by n bytes w).1.errno ≡ 4 → (write_by n bytes w).1.signals < w.signals)
write_by-refuses zero bytes w k s e = cc
write_by-refuses (suc n) bytes w k s e = (refl, λ q. omega arith)

system-IsWriter : IsWriter system (pos 3) (λ w. w.sent) (λ w. w.signals)
system-IsWriter = record {
  takes = λ bytes w k h e. write_by-takes w.signals bytes w k h refl e;
  refuses = λ bytes w k e. write_by-refuses w.signals bytes w k refl e;
}

ser_send-Sent_example :
    Sent system
      (λ w. w.sent)
      []
      (5 ∷ 6 ∷ 7 ∷ [])
      (ser_send system (3 + 1) handle (5 ∷ 6 ∷ 7 ∷ []) 3 started)
ser_send-Sent_example =
    ser_send-Sent system (λ w. w.sent) (λ w. w.signals) handle (5 ∷ 6 ∷ 7 ∷ []) 3 started
      system-IsWriter (omega arith) (omega arith)

-- Three bytes go out in three calls, the first of which is interrupted.
ser_send_three :
    ser_send system (3 + 1) handle (5 ∷ 6 ∷ 7 ∷ []) 3 started
    ≡ some (pos 0, record started { errno = 4; signals = 0; sent = 5 ∷ 6 ∷ 7 ∷ [] })
unfolding ser_send send_from
ser_send_three = refl

system-IsAccounted : IsAccounted system (λ w. w.held)
system-IsAccounted = record {
  opens = λ device flags w p. refl;
  opens_not = λ device flags w p. cc;
  closes = λ fd w before e. ap {A = Held} {B = Held} (λ h. record h { fds = tail h.fds }) e;
  gives = λ w p. refl;
  gives_not = λ w p. cc;
  frees = λ w before e. ap {A = Held} {B = Held} (λ h. record h { blocks = fewer h.blocks }) e;
  reports = λ c w. refl;
  gets = λ fd t w. refl;
  sets = λ fd n t w. refl;
  drains = λ fd w. refl;
  flushes = λ fd n w. refl;
}

serial_open-Opened_example :
    Opened (λ w. w.held) 9600 (record { fds = []; blocks = 0 }) (serial_open system [] 9600 started)
serial_open-Opened_example =
    serial_open-Opened system (λ w. w.held) [] 9600 started system-IsAccounted

serial_close-serial_open_example :
    (serial_close system
      (serial_open system [] 9600 started).0
      (serial_open system [] 9600 started).1).held
    ≡ record { fds = []; blocks = 0 }
serial_close-serial_open_example =
    serial_close-serial_open system (λ w. w.held) [] 9600 started system-IsAccounted

abbrev on_port : Modbus System
unfolding init set_slave set_rxbuf
on_port = set_rxbuf (set_slave (init 1 started) 1) (some (replicate 16 0)) 16

on_port-IsReceiving : IsReceiving on_port
unfolding on_port
on_port-IsReceiving = record {
  valid = omega arith;
  framed = refl;
  framed_type = refl;
  room = omega arith;
  pending = omega arith;
  small = omega arith;
}

recv-build_port_example :
    Receives (recv (set_recv_cb on_port (build_port system (λ w. w.signals) handle).recv))
recv-build_port_example =
    recv-build_port system (λ w. w.signals) handle on_port system-IsReader on_port-IsReceiving

-- Five bytes in the transmit buffer, two of them to send.
abbrev talker : Modbus System
unfolding init set_txbuf set_send_cb build_port
talker =
    record (set_send_cb (set_txbuf (init 1 started) (some (replicate 5 7)) 5)
      (build_port system (λ w. w.signals) handle).send) { tx_len = 2 }

talker-registered : talker.callbacks.send_cb ≡ (build_port system (λ w. w.signals) handle).send
unfolding talker
talker-registered = refl

send-build_port_example : Delivered (λ w. w.sent) talker (send talker)
unfolding talker
send-build_port_example =
    send-build_port system (λ w. w.sent) (λ w. w.signals) handle talker system-IsWriter
      talker-registered (omega arith) (omega arith)
