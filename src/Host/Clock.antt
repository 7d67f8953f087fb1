-- ===== src/Host/Clock.antt =====
-- The time that the loops of host/slave_disco.c and host/master_disco.c wait for: what is documented
-- of the clock of include/pa_port.h and of `usleep`. `nanos` is the time of a state of the system.
use pamodbus.Common.{ℕ, ◌+◌, ◌-◌, ◌*◌, ◌/◌, ◌^◌, ◌≤◌, ◌<◌, ◌≡◌, arith, u32}
use pamodbus.Context.{TicksFn}
use pamodbus.Host.Posix.{Posix}

-- The clock is read as milliseconds of 32 bits; to read it takes some time, but less than 2 ^ 28 ms.
pub record IsClock {W : Type 0} (ticks : TicksFn W) (nanos : W → ℕ) : Type 0 where
  pub tells : (w : W) → (ticks w).0 ≡ u32 (nanos (ticks w).1 / 1000000)
  pub runs : (w : W) → nanos w < nanos (ticks w).1
  pub quick : (w : W) → nanos (ticks w).1 < nanos w + 1000000 * 2 ^ 28

-- `usleep` sleeps for as many microseconds as it is told at least, and for less than 2 ^ 28 ms more.
pub record IsSleeping {W T : Type 0} (os : Posix W T) (nanos : W → ℕ) : Type 0 where
  pub sleeps : (us : ℕ) (w : W) → nanos w + us * 1000 ≤ nanos (os.usleep us w)
  pub wakes : (us : ℕ) (w : W) → nanos (os.usleep us w) < nanos w + us * 1000 + 1000000 * 2 ^ 28

-- A call takes from the time `before` to the time `after`, which is less than 2 ^ 28 ms.
abbrev pub IsBrief : ℕ → ℕ → Type 0
IsBrief before after = (before ≤ after) × (after < before + 1000000 * 2 ^ 28)

-- The difference of two readings of the clock.
pub elapsed : (x y : ℕ) → y ≤ x → x - y < 2 ^ 32 → u32 (u32 x + 2 ^ 32 - u32 y) ≡ x - y
elapsed x y lo hi = omega arith
