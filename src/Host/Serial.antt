-- ===== src/Host/Serial.antt =====
-- host/pa_serial.c: the serial port as a transport.
pub mod Open
pub mod Sent
pub mod Transmit
pub mod Balance
pub mod Listen
mod Tests
use pamodbus.Common.{
  ℕ, zero, suc, ◌+◌, ◌-◌, ◌*◌, ◌/◌, List, Option, none, some, Bool, true, false, ◌||◌, not, ℤ, pos,
  negsuc,
}
use pamodbus.Common.{[], take, drop, ltb, ◌==◌, if◌then◌else◌, int_of, is_positive, size_t, u32}
use pamodbus.Host.Posix.{Posix}
use pamodbus.Host.Port.{Port}

-- `struct pa_serial`
pub record Serial : Type 0 where
  pub fd : ℤ
  pub baud : ℕ

module _ {W T : Type 0} (os : Posix W T) where
  unfoldable pub ser_open : W → ℤ × W
  ser_open w = (pos 0, w)

  -- The loop of `ser_send` from the offset `off` on: `none` is a loop that is not done after as many
  -- calls of `write`.
  unfoldable pub send_from : Serial → List ℕ → ℕ → ℕ → ℕ → W → Option (ℤ × W)
  send_from h bytes len off zero w = if ltb off len then none else some (pos 0, w)
  send_from h bytes len off (suc calls) w = elim (ltb off len) [
    | true ↦
        let (n, w') = os.write h.fd (take (len - off) (drop off bytes)) w in
        elim n [
          | pos k ↦ send_from h bytes len (size_t (off + k)) calls w'
          | negsuc k ↦ elim (os.errno w' == os.constants.eintr) [
            | true ↦ send_from h bytes len off calls w'
            | false ↦ some (negsuc 0, w')
          ]
        ]
    | false ↦ some (pos 0, w)
  ]

  unfoldable pub ser_send : ℕ → Serial → List ℕ → ℕ → W → Option (ℤ × W)
  unfolding send_from
  ser_send calls h bytes len w = send_from h bytes len 0 calls w

  -- What `read` returned, and the bytes that it stored.
  unfoldable pub after_read : ℤ → List ℕ → W → ℤ × List ℕ × W
  after_read (pos n) bytes w = (int_of n, bytes, w)
  after_read (negsuc n) bytes w =
      if os.errno w == os.constants.eagain || os.errno w == os.constants.ewouldblock
      then (pos 0, bytes, w)
      else (negsuc 0, bytes, w)

  unfoldable pub ser_recv : Serial → ℕ → W → ℤ × List ℕ × W
  unfolding after_read
  ser_recv h max_len w =
      let (pr, w') = os.poll h.fd os.constants.pollin 0 w in
      if is_positive pr
      then (let (n, bytes, w'') = os.read h.fd max_len w' in after_read n bytes w'')
      else (pos 0, [], w')

  unfoldable pub ser_ticks : W → ℕ × W
  ser_ticks w = let (ts, w') = os.clock_gettime w in (u32 (ts.0 * 1000 + ts.1 / 1000000), w')

  unfoldable pub ser_set_dir : Bool → W → ℤ × W
  ser_set_dir tx w = (pos 0, w)

  unfoldable pub ser_flush : Serial → W → W
  ser_flush h w = (os.tcflush h.fd os.constants.tciflush (os.tcdrain h.fd w).1).1

  unfoldable pub ser_delay_ms : ℕ → W → W
  ser_delay_ms ms w = os.usleep (u32 (ms * 1000)) w

  unfoldable pub flush_input : Option Serial → W → W
  flush_input none w = w
  flush_input (some h) w = (os.tcflush h.fd os.constants.tciflush w).1

  -- `ser_send` as a callback. `calls` bounds the interruptions to come, so that the loop is done within
  -- `len + calls w` calls of `write`; the second case is a loop that is not, which the loop in C never is on
  -- a device with such a bound.
  unfoldable pub send_fn : (W → ℕ) → Serial → List ℕ → ℕ → W → ℤ × W
  unfolding ser_send
  send_fn calls h bytes len w = elim (ser_send (len + calls w) h bytes len w) [
    | some r ↦ r
    | none ↦ (negsuc 0, w)
  ]

  unfoldable pub build_port : (W → ℕ) → Serial → Port W
  unfolding ser_open send_fn ser_recv ser_ticks ser_set_dir ser_flush ser_delay_ms
  build_port calls h = record {
    open_port = some ser_open;
    send = some (send_fn calls h);
    recv = some (ser_recv h);
    ticks = some ser_ticks;
    set_dir = some ser_set_dir;
    flush = some (ser_flush h);
    delay_ms = some ser_delay_ms;
  }
