-- ===== src/Host/MasterDisco/Scan.antt =====
-- The loop of `main` in host/master_disco.c comes to an end.
use pamodbus.Common.{
  ℕ, zero, suc, ◌+◌, ◌-◌, ◌*◌, ◌/◌, ◌^◌, ◌≤◌, ◌<◌, Option, some, true, false, Bool,
}
use pamodbus.Common.{◌≡◌, ◌≢◌, refl, arith, ltb, ◌==◌, u32, if◌then◌else◌}
use pamodbus.Context.{TicksFn}
use pamodbus.Host.Posix.{Posix}
use pamodbus.Host.Clock.{IsClock, IsSleeping, IsBrief, elapsed}
use pamodbus.Host.MasterDisco.{Scanner, MasterLibrary, clock_now, scan_pass, scan_until}

-- The service of the library returns, in less than 2 ^ 28 ms.
abbrev pub IsServing : {W D : Type 0} → MasterLibrary W D → (W → ℕ) → Type 0
IsServing {W} {D} lib nanos =
    (s : Scanner W D) → IsBrief (nanos s.pam.world) (nanos (lib.master_service s).pam.world)

module _ {W D T : Type 0} (lib : MasterLibrary W D) (os : Posix W T) (ticks : TicksFn W)
    (nanos : W → ℕ) (max_ms : ℕ) (s : Scanner W D) where
  abbrev ms : Scanner W D → ℕ
  ms t = nanos t.pam.world / 1000000

  -- The states after passes of the loop, each with nothing found and within the window before it.
  pub data Scans : Scanner W D → Type 0 where
    here : Scans s
    next :
        {t : Scanner W D}
        → Scans t
        → t.found ≡ 0
        → ms (clock_now ticks t).1 < ms s + max_ms
        → Scans (scan_pass lib os (clock_now ticks t).1)

  -- How the scan ends that began in `s`: in the first state with a slave found, or without one at the
  -- first reading of the clock with `max_ms` milliseconds passed.
  pub data Scanned : Option (Scanner W D) → Type 0 where
    slave_found : {t : Scanner W D} → Scans t → t.found ≢ 0 → Scanned (some t)
    none_found :
        {t : Scanner W D}
        → Scans t
        → t.found ≡ 0
        → ms s + max_ms ≤ ms (clock_now ticks t).1
        → Scanned (some (clock_now ticks t).1)

module _ {W D T : Type 0} (lib : MasterLibrary W D) (os : Posix W T) (ticks : TicksFn W)
    (nanos : W → ℕ) (clock : IsClock ticks nanos) (sleeping : IsSleeping os nanos)
    (serving : IsServing lib nanos) where
  -- A pass with its reading of the clock takes 20 ms at least.
  pass-sleeps :
      (s : Scanner W D)
      → nanos s.pam.world + 20000000 ≤ nanos (scan_pass lib os (clock_now ticks s).1).pam.world
  unfolding scan_pass clock_now
  pass-sleeps s =
      let s' = (clock_now ticks s).1 in
      let runs = clock.runs s.pam.world in
      let (later, soon) = serving s' in
      let slept = sleeping.sleeps 20000 (lib.master_service s').pam.world in omega arith

  pass-brief :
      (s : Scanner W D)
      → nanos (scan_pass lib os s).pam.world < nanos s.pam.world + 1000000 * (2 ^ 29 + 20)
  unfolding scan_pass
  pass-brief s =
      let (later, soon) = serving s in
      let woken = sleeping.wakes 20000 (lib.master_service s).pam.world in omega arith

  module _ (max_ms : ℕ) (small : max_ms < 2 ^ 31) (s₀ : Scanner W D) where
    Scanned-if :
        (b : Bool) {x y : Option (Scanner W D)}
        → (b ≡ true → Scanned lib os ticks nanos max_ms s₀ x)
        → (b ≡ false → Scanned lib os ticks nanos max_ms s₀ y)
        → Scanned lib os ticks nanos max_ms s₀ (if b then x else y)
    Scanned-if true f g = f refl
    Scanned-if false f g = g refl

    scan-Scanned :
        (start passes : ℕ) (s : Scanner W D)
        → start ≡ u32 (nanos s₀.pam.world / 1000000)
        → Scans lib os ticks nanos max_ms s₀ s
        → nanos s₀.pam.world ≤ nanos s.pam.world
        → nanos s.pam.world < nanos s₀.pam.world + 1000000 * (2 ^ 31 + 2 ^ 30)
        → 1 ≤ passes
        → nanos s₀.pam.world + (max_ms + 21) * 1000000 ≤ nanos s.pam.world + passes * 20000000
        → Scanned lib os ticks nanos max_ms s₀ (scan_until lib os ticks start max_ms passes s)
    unfolding scan_until clock_now
    scan-Scanned start zero s e path lo hi some_left enough = absurd (omega arith)
    scan-Scanned start (suc passes) s e path lo hi some_left enough =
        let (now, s') = clock_now ticks s in
        let told = clock.tells s.pam.world in
        let runs = clock.runs s.pam.world in
        let read = clock.quick s.pam.world in
        let slept = pass-sleeps s in
        let soon = pass-brief s' in
        let x = nanos s'.pam.world / 1000000 in
        let y = nanos s₀.pam.world / 1000000 in
        let gone : u32 (now + 2 ^ 32 - start) ≡ x - y =
          rw (told, e) (elapsed x y (omega arith) (omega arith)) in
        rw (scan_until, gone)
          (Scanned-if (s.found == 0)
            (λ p.
              let nothing : s.found ≡ 0 = ground arith in
              Scanned-if (ltb (x - y) max_ms)
                (λ q.
                  let early : x - y < max_ms = ground arith in
                  scan-Scanned start passes (scan_pass lib os s') e
                    (next path nothing (omega arith)) (omega arith) (omega arith) (omega arith)
                    (omega arith))
                (λ q.
                  let late : max_ms ≤ x - y = ground arith in
                  none_found path nothing (omega arith)))
            (λ p. slave_found path (λ z. ground arith)))

-- The scan of `main` comes to an end with the right answer: with a scan window below 2 ^ 31 ms, a clock and a
-- `usleep` that behave as documented, and calls of the clock, of `usleep` (beside what it is told) and of the
-- service of pamodbus-disco that take less than 2 ^ 28 ms each, the loop is done after `max_ms / 20 + 3` passes at
-- most. It ends in the first state with a slave found, or without one at the first reading of the clock with the
-- window passed; in every pass before, nothing is found and the window has not passed.
pub scan_until-Scanned :
    {W D T : Type 0} (lib : MasterLibrary W D) (os : Posix W T) (ticks : TicksFn W) (nanos : W → ℕ)
    (start max_ms : ℕ) (s : Scanner W D)
    → IsClock ticks nanos
    → IsSleeping os nanos
    → IsServing lib nanos
    → max_ms < 2 ^ 31
    → start ≡ u32 (nanos s.pam.world / 1000000)
    → Scanned lib os ticks nanos max_ms s (scan_until lib os ticks start max_ms (max_ms / 20 + 3) s)
scan_until-Scanned lib os ticks nanos start max_ms s clock sleeping serving small e =
    scan-Scanned lib os ticks nanos clock sleeping serving max_ms small s start (max_ms / 20 + 3) s
      e here (omega arith) (omega arith) (omega arith) (omega arith)
