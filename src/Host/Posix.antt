-- ===== src/Host/Posix.antt =====
-- The calls of host/pa_serial.c into POSIX, the C library and termios, which are not code of this
-- repository: a record of functions on the state `W` of the system outside.
use pamodbus.Common.{ℕ, List, ℤ, Bool}

-- `struct termios`, as far as the code reads and writes it: `c_cc` by the index constants of the
-- headers, all of them inside the array; `others` stands for the rest.
pub record Termios (T : Type 0) : Type 0 where
  pub c_cflag : ℕ
  pub c_cc : ℕ → ℕ
  pub others : T

-- `speed_t`: the macros that the code names.
pub data Speed : Type 0 where
  b0 b9600 b19200 b38400 b57600 b115200 b230400 b460800 b921600 : Speed

-- What the code prints on `stderr`.
pub data Complaint : Type 0 where
  unsupported_baud : ℕ → Complaint
  open_failed : Complaint
  tcgetattr_failed : Complaint
  tcsetattr_failed : Complaint

-- The constants of the headers.
pub record Constants : Type 0 where
  pub o_rdwr : ℕ
  pub o_noctty : ℕ
  pub o_nonblock : ℕ
  pub clocal : ℕ
  pub cread : ℕ
  pub parenb : ℕ
  pub cstopb : ℕ
  pub csize : ℕ
  pub crtscts : ℕ
  pub cs8 : ℕ
  pub vmin : ℕ
  pub vtime : ℕ
  pub tcsanow : ℕ
  pub tciflush : ℕ
  pub tcioflush : ℕ
  pub pollin : ℕ
  pub eintr : ℕ
  pub eagain : ℕ
  pub ewouldblock : ℕ

-- A call returns its `int` or `ssize_t`, what it stores in the caller's memory, and the system.
pub record Posix (W T : Type 0) : Type 0 where
  pub constants : Constants
  pub errno : W → ℕ
  pub report : Complaint → W → W
  pub open_dev : List ℕ → ℕ → W → ℤ × W
  pub close : ℤ → W → ℤ × W
  pub write : ℤ → List ℕ → W → ℤ × W
  pub read : ℤ → ℕ → W → ℤ × List ℕ × W
  -- (fd, events, timeout)
  pub poll : ℤ → ℕ → ℕ → W → ℤ × W
  -- `calloc` succeeded
  pub calloc : W → Bool × W
  pub free : W → W
  -- `struct termios` with all bytes 0
  pub zeroed : Termios T
  pub tcgetattr : ℤ → Termios T → W → ℤ × Termios T × W
  pub tcsetattr : ℤ → ℕ → Termios T → W → ℤ × W
  pub tcdrain : ℤ → W → ℤ × W
  pub tcflush : ℤ → ℕ → W → ℤ × W
  pub cfmakeraw : Termios T → Termios T
  pub cfsetispeed : Termios T → Speed → Termios T
  pub cfsetospeed : Termios T → Speed → Termios T
  -- seconds and nanoseconds of the monotonic clock
  pub clock_gettime : W → (ℕ × ℕ) × W
  pub usleep : ℕ → W → W
