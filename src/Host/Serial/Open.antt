-- ===== src/Host/Serial/Open.antt =====
-- host/pa_serial.c: `pa_serial_open` and `pa_serial_close`.
use pamodbus.Common.{Bool, true, false, ℕ, ◌-◌, ◌^◌, List, [], ◌∷◌, Option, none, some, ℤ}
use pamodbus.Common.{
  bit_and, bit_or, bit_xor, switch, if◌then◌else◌, is_zero, is_negative, not, ◌==◌, u32,
}
use pamodbus.Host.Posix.{
  Posix, Termios, Speed, b0, b9600, b19200, b38400, b57600, b115200, b230400, b460800, b921600,
}
use pamodbus.Host.Posix.{unsupported_baud, open_failed, tcgetattr_failed, tcsetattr_failed}
use pamodbus.Host.Serial.{Serial}

unfoldable pub baud_to_speed : ℕ → Speed
baud_to_speed baud =
    switch baud
      ((9600, b9600)
        ∷ (19200, b19200)
        ∷ (38400, b38400)
        ∷ (57600, b57600)
        ∷ (115200, b115200)
        ∷ (230400, b230400)
        ∷ (460800, b460800)
        ∷ (921600, b921600)
        ∷ [])
      b0

-- `speed == B0`
abbrev pub is_b0 : Speed → Bool
is_b0 b0 = true
is_b0 _ = false

module _ {W T : Type 0} (os : Posix W T) where
  -- `tio.c_cc[i] = v`
  unfoldable pub set_cc : Termios T → ℕ → ℕ → Termios T
  set_cc tio i v = record tio { c_cc = λ j. if j == i then v else tio.c_cc j }

  -- From `cfmakeraw` to the non-blocking reads.
  unfoldable pub raw_8n1 : Termios T → Speed → Termios T
  unfolding set_cc
  raw_8n1 tio speed =
      let c = os.constants in
      let raw = os.cfmakeraw tio in
      let on = bit_or raw.c_cflag (bit_or c.clocal c.cread) in
      let off = bit_or (bit_or (bit_or c.parenb c.cstopb) c.csize) c.crtscts in
      let flags = bit_or (bit_and on (bit_xor (u32 off) (2 ^ 32 - 1))) c.cs8 in
      let timed = os.cfsetospeed (os.cfsetispeed (record raw { c_cflag = flags }) speed) speed in
      set_cc (set_cc timed c.vmin 0) c.vtime 0

  -- From `calloc` on.
  unfoldable pub allocated : ℤ → ℕ → W → Option Serial × W
  allocated fd baud w =
      let (given, w') = os.calloc w in
      if given
      then (some (record { fd = fd; baud = baud }), (os.tcflush fd os.constants.tcioflush w').1)
      else (none, (os.close fd w').1)

  -- The device is open; its settings are read and written.
  unfoldable pub configured : ℤ → ℕ → Speed → W → Option Serial × W
  unfolding raw_8n1 allocated
  configured fd baud speed w =
      let (got, tio, w') = os.tcgetattr fd os.zeroed w in
      if not (is_zero got)
      then (none, (os.close fd (os.report tcgetattr_failed w')).1)
      else (let (was_set, w'') = os.tcsetattr fd os.constants.tcsanow (raw_8n1 tio speed) w' in
          if not (is_zero was_set)
          then (none, (os.close fd (os.report tcsetattr_failed w'')).1)
          else allocated fd baud w'')

  unfoldable pub opened : List ℕ → ℕ → Speed → W → Option Serial × W
  unfolding configured
  opened device baud speed w =
      let c = os.constants in
      let (fd, w') = os.open_dev device (bit_or (bit_or c.o_rdwr c.o_noctty) c.o_nonblock) w in
      if is_negative fd then (none, os.report open_failed w') else configured fd baud speed w'

  unfoldable pub serial_open : List ℕ → ℕ → W → Option Serial × W
  unfolding baud_to_speed opened
  serial_open device baud w =
      if is_b0 (baud_to_speed baud)
      then (none, os.report (unsupported_baud baud) w)
      else opened device baud (baud_to_speed baud) w

  unfoldable pub serial_close : Option Serial → W → W
  serial_close none w = w
  serial_close (some h) w =
      os.free (if is_negative h.fd then w else (os.close h.fd (os.tcdrain h.fd w).1).1)
