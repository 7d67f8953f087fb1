-- ===== src/Host/Serial/Listen.antt =====
-- `ser_recv` of host/pa_serial.c as the receive callback of src/pamodbus.c.
use pamodbus.Common.{ℕ, ◌≤◌, ◌^◌, ◌%◌, refl, arith, length, List, if-all, ℤ, pos, negsuc, ltb}
use pamodbus.Common.{int_of, is_positive, Bool-cases, inl, inr, ◌==◌, ◌||◌}
use pamodbus.Context.{Modbus}
use pamodbus.Context.Config.{set_recv_cb}
use pamodbus.Receive.{recv}
use pamodbus.Receive.Safe.{IsReceiving, Receives, counted, IsPolite}
use pamodbus.Receive.Total.{recv-Receives}
use pamodbus.Host.Posix.{Posix}
use pamodbus.Host.Serial.{Serial, after_read, ser_recv, build_port}

-- What POSIX documents of `read`: it stores no more bytes than asked for, and reports no more than it
-- stores.
abbrev pub IsReader : {W T : Type 0} → Posix W T → ℤ → Type 0
IsReader {W} os fd =
    (max : ℕ) (w : W)
    → (length (os.read fd max w).1 ≤ max)
      × (counted (os.read fd max w).0 ≤ length (os.read fd max w).1)

int_of-counted : (n : ℕ) → counted (int_of n) ≤ n
int_of-counted n = elim (Bool-cases (ltb (n % 2 ^ 32) (2 ^ 31))) [
  | inl e ↦ rw e (omega arith)
  | inr e ↦ rw e (omega arith)
]

module _ {W T : Type 0} (os : Posix W T) (h : Serial) (reader : IsReader os h.fd) where
  after_read-IsPolite :
      (max : ℕ) (w : W)
      → (n : ℤ) (bytes : List ℕ) → length bytes ≤ max
      → counted n ≤ length bytes
      → (length (after_read os n bytes w).1 ≤ max)
        × (counted (after_read os n bytes w).0 ≤ length (after_read os n bytes w).1)
  unfolding after_read
  after_read-IsPolite max w (pos n) bytes few honest =
      (few, omega (arith, int_of-counted n, honest))
  after_read-IsPolite max w (negsuc n) bytes few honest =
      if-all {A = ℤ × List ℕ × W} (λ r. (length r.1 ≤ max) × (counted r.0 ≤ length r.1))
        (os.errno w == os.constants.eagain || os.errno w == os.constants.ewouldblock)
        (few, omega arith) (few, omega arith)

  pub ser_recv-IsPolite : IsPolite (ser_recv os h)
  unfolding ser_recv
  ser_recv-IsPolite max w =
      let (pr, w') = os.poll h.fd os.constants.pollin 0 w in
      let (few, honest) = reader max w' in
      if-all {A = ℤ × List ℕ × W} (λ r. (length r.1 ≤ max) × (counted r.0 ≤ length r.1))
        (is_positive pr)
        (after_read-IsPolite max (os.read h.fd max w').2 (os.read h.fd max w').0
          (os.read h.fd max w').1 few honest)
        (omega arith)

-- `pa_modbus_recv` on the serial port: on a device whose `read` behaves as documented, with the `recv` of
-- the port that `pa_serial_build_port` fills in as the callback, the receiver makes no access outside its
-- buffer and leaves a context in which it can be called again.
pub recv-build_port :
    {W T : Type 0} (os : Posix W T) (calls : W → ℕ) (h : Serial) (ctx : Modbus W)
    → IsReader os h.fd
    → IsReceiving ctx
    → Receives (recv (set_recv_cb ctx (build_port os calls h).recv))
unfolding build_port set_recv_cb
recv-build_port os calls h ctx reader r =
    let v = r.valid in
    let c = set_recv_cb ctx (build_port os calls h).recv in
    let rc : IsReceiving c = record {
      valid = omega arith;
      framed = r.framed;
      framed_type = r.framed_type;
      room = r.room;
      pending = r.pending;
      small = r.small;
    } in
    recv-Receives c (ser_recv os h) rc refl (ser_recv-IsPolite os h reader)
