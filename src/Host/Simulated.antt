-- ===== src/Host/Simulated.antt =====
-- A simulated system for the tests of the files under host/.
use pamodbus.Common.{
  ℕ, zero, suc, ◌+◌, ◌*◌, ◌/◌, ◌%◌, min, List, [], ◌∷◌, ◌++◌, take, length, length-take, arith,
  true, ℤ, pos, negsuc,
}
use pamodbus.Host.Posix.{Posix, Constants, Termios}
use pamodbus.Host.Serial.{Serial}
use pamodbus.Host.Serial.Listen.{IsReader}
use pamodbus.Host.Serial.Balance.{Held}

-- A system with one device, which takes two bytes at a time, and one interruption to come.
pub record System : Type 0 where
  pub errno : ℕ
  pub sent : List ℕ
  pub signals : ℕ
  pub held : Held
  pub nanos : ℕ

abbrev pub constants : Constants
constants = record {
  o_rdwr = 2;
  o_noctty = 0x100;
  o_nonblock = 0x800;
  clocal = 0x800;
  cread = 0x80;
  parenb = 0x100;
  cstopb = 0x40;
  csize = 0x30;
  crtscts = 0x80000000;
  cs8 = 0x30;
  vmin = 6;
  vtime = 5;
  tcsanow = 0;
  tciflush = 0;
  tcioflush = 2;
  pollin = 1;
  eintr = 4;
  eagain = 11;
  ewouldblock = 11;
}

abbrev pub plain : Termios ℕ
plain = record { c_cflag = 0; c_cc = λ i. 0; others = 0 }

abbrev pub pending : List ℕ
pending = 1 ∷ 3 ∷ []

abbrev pub fewer : ℕ → ℕ
fewer zero = 0
fewer (suc n) = n

abbrev pub tail : List ℤ → List ℤ
tail [] = []
tail (x ∷ xs) = xs

abbrev pub write_by : ℕ → List ℕ → System → ℤ × System
write_by zero bytes w =
    let n = min 2 (length bytes) in (pos n, record w { sent = w.sent ++ take n bytes })
write_by (suc n) bytes w = (negsuc 0, record w { errno = 4; signals = n })

abbrev pub system : Posix System ℕ
system = record {
  constants = constants;
  errno = λ w. w.errno;
  report = λ c w. w;
  open_dev =
      λ device flags w. (pos 3, record w { held = record (w.held) { fds = pos 3 ∷ w.held.fds } });
  close = λ fd w. (pos 0, record w { held = record (w.held) { fds = tail w.held.fds } });
  write = λ fd bytes w. write_by w.signals bytes w;
  read = λ fd max w. (pos (length (take max pending)), take max pending, w);
  poll = λ fd events timeout w. (pos 1, w);
  calloc = λ w. (true, record w { held = record (w.held) { blocks = suc w.held.blocks } });
  free = λ w. record w { held = record (w.held) { blocks = fewer w.held.blocks } };
  zeroed = plain;
  tcgetattr = λ fd tio w. (pos 0, plain, w);
  tcsetattr = λ fd actions tio w. (pos 0, w);
  tcdrain = λ fd w. (pos 0, w);
  tcflush = λ fd queue w. (pos 0, w);
  cfmakeraw = λ tio. tio;
  cfsetispeed = λ tio speed. tio;
  cfsetospeed = λ tio speed. tio;
  clock_gettime =
      λ w. let n = w.nanos + 1 in ((n / 1000000000, n % 1000000000), record w { nanos = n });
  usleep = λ us w. record w { nanos = w.nanos + 1000 * us };
}

abbrev pub handle : Serial
handle = record { fd = pos 3; baud = 9600 }

abbrev pub started : System
started = record {
  errno = 0;
  sent = [];
  signals = 1;
  held = record { fds = []; blocks = 0 };
  nanos = 0;
}

pub system-IsReader : IsReader system (pos 3)
system-IsReader max w = omega (arith, length-take max pending)
