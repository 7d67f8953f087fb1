-- ===== src/Host/SlaveDisco/Random.antt =====
-- `slave_random` of host/slave_disco.c.
use pamodbus.Common.{ℕ, ◌+◌, ◌-◌, ◌*◌, ◌%◌, ◌^◌, ◌≤◌, ◌<◌, some, ◌≡◌, refl, arith}
use pamodbus.Common.{leb, ◌==◌, if◌then◌else◌, u32, true, false}
use native.Mathlib.Decide.{dec_le}
use native.Mathlib.Nat.{mod-lt}
use pamodbus.Host.SlaveDisco.{slave_random}

-- The next state of the generator.
abbrev next : ℕ → ℕ
next s_rand = u32 (u32 (s_rand * 1664525) + 1013904223)

-- The jitter stays in its window: for bounds of 32 bits other than the full range, `slave_random` divides by
-- a number that is not 0 and returns a number that is at least `min` and, if the window is not empty, at most
-- `max`; the state of the generator stays within 32 bits, and an empty window leaves it alone and gives `min`.
pub slave_random-bounds :
    (min max s_rand : ℕ)
    → max < 2 ^ 32
    → min < 2 ^ 32
    → s_rand < 2 ^ 32
    → max - min < 2 ^ 32 - 1
    → (r s : ℕ) × (slave_random min max s_rand ≡ some (r, s))
      × (min ≤ r)
      × (s < 2 ^ 32)
      × (if leb max min then (r ≡ min) × (s ≡ s_rand) else r ≤ max)
unfolding slave_random
slave_random-bounds min max s_rand hi lo hs narrow = elim (dec_le max min) [
  | yes p ↦
      let guard : leb max min ≡ true = ground arith in
      rw guard (min, s_rand, refl, omega arith, hs, (refl, refl))
  | no p ↦
      let guard : leb max min ≡ false = ground arith in
      let width : u32 (max - min + 1) ≡ max - min + 1 = omega arith in
      let some_width : (max - min + 1 == 0) ≡ false = ground arith in
      let top = mod-lt (next s_rand) {m = max - min + 1} (omega arith) in
      let r = min + next s_rand % (max - min + 1) in
      let fits : u32 r ≡ r = omega (arith, top) in
      rw (guard, width, some_width, fits)
        (r, next s_rand, refl, omega arith, omega arith, omega (arith, top))
]
