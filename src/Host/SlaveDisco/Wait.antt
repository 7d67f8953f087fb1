-- ===== src/Host/SlaveDisco/Wait.antt =====
-- The loop of `main` in host/slave_disco.c comes to an end.
use pamodbus.Common.{
  ℕ, zero, suc, ◌+◌, ◌-◌, ◌*◌, ◌/◌, ◌^◌, ◌≤◌, ◌<◌, Option, some, ℤ, pos, true, false, Bool,
  Bool-cases,
}
use pamodbus.Common.{◌≡◌, ◌≢◌, refl, ◌∙◌, ◌⊎◌, inl, inr, arith, leb, not, ◌==◌, u32}
use pamodbus.Common.{if◌then◌else◌}
use pamodbus.Context.{TicksFn}
use pamodbus.Host.Clock.{IsClock, IsBrief, elapsed}
use pamodbus.Host.SlaveDisco.{Program, Library}
use pamodbus.Host.SlaveDisco.Main.{now_of, served, noted, wait_from}

-- The two services of the library return, in less than 2 ^ 28 ms each.
pub record IsServing {W D M : Type 0} (lib : Library W D M) (nanos : W → ℕ) : Type 0 where
  pub slave :
      (s : Program W D M) → IsBrief (nanos s.pam.world) (nanos (lib.slave_service s).1.pam.world)
  pub register_map :
      (s : Program W D M)
      → IsBrief (nanos s.pam.world) (nanos (lib.register_map_service s).pam.world)

module _ {W D M : Type 0} (lib : Library W D M) (ticks : TicksFn W) (nanos : W → ℕ) (timeout : ℕ)
    (s : Program W D M) where
  abbrev ms : Program W D M → ℕ
  ms t = nanos t.pam.world / 1000000

  -- A pass from `t` leaves no identifier assigned, or ends at a reading of 0 of the clock, which the
  -- program takes for "not assigned yet".
  abbrev pub Unnoted : Program W D M → Type 0
  Unnoted t = ((served lib ticks t).1.assigned_id ≡ 0) ⊎ ((served lib ticks t).0 ≡ 0)

  -- The states after passes from `s` without an assignment and within the timeout.
  pub data Waits : Program W D M → Type 0 where
    here : Waits s
    next :
        {t : Program W D M}
        → Waits t
        → Unnoted t
        → ms (served lib ticks t).1 < ms s + timeout
        → Waits (served lib ticks t).1

  -- The states after passes from `t` within two seconds.
  pub data Stays (t : Program W D M) : Program W D M → Type 0 where
    at_once : Stays t t
    later :
        {u : Program W D M}
        → Stays t u
        → ms (served lib ticks u).1 < ms t + 2000
        → Stays t (served lib ticks u).1

  -- How the loop ends that began in `s`: an identifier was assigned in a pass from `t`, the first such
  -- pass, and the pass from `u` is the first after which two seconds have passed since; or no
  -- identifier was assigned, and the pass from `t` is the first after which the timeout has passed.
  pub data Ended : Option (ℤ × Program W D M) → Type 0 where
    found :
        {t u : Program W D M}
        → Waits t
        → (served lib ticks t).1.assigned_id ≢ 0
        → (served lib ticks t).0 ≢ 0
        → Stays (served lib ticks t).1 u
        → ms (served lib ticks t).1 + 2000 ≤ ms (served lib ticks u).1
        → Ended (some (pos 0, (served lib ticks u).1))
    gave_up :
        {t : Program W D M}
        → Waits t
        → Unnoted t
        → ms s + timeout ≤ ms (served lib ticks t).1
        → Ended (some (pos 1, (served lib ticks t).1))

noted-set :
    {W D M : Type 0} (now since : ℕ) (s : Program W D M) → since ≢ 0 → noted now since s ≡ since
noted-set now since s ne =
    let guard : (since == 0) ≡ false = ground arith in
    elim (Bool-cases (not (s.assigned_id == 0))) [ inl e ↦ rw (e, guard) refl | inr e ↦ rw e refl ]

-- An assignment is noted, unless it is at a reading of 0.
noted-fresh :
    {W D M : Type 0} (now : ℕ) (s : Program W D M)
    → ((noted now 0 s ≡ 0) × ((s.assigned_id ≡ 0) ⊎ (now ≡ 0)))
      ⊎ ((noted now 0 s ≡ now) × (s.assigned_id ≢ 0) × (now ≢ 0))
noted-fresh now s = elim (Bool-cases (s.assigned_id == 0)) [
  | inl e ↦ let none_yet : s.assigned_id ≡ 0 = ground arith in inl (rw e refl, inl none_yet)
  | inr e ↦ elim (Bool-cases (now == 0)) [
    | inl z ↦
        let start : now ≡ 0 = ground arith in
        let fresh : noted now 0 s ≡ now = rw e refl in inl (fresh ∙ start, inr start)
    | inr z ↦
        let fresh : noted now 0 s ≡ now = rw e refl in
        inr (fresh, (λ q. ground arith), λ q. ground arith)
  ]
]

-- What a pass says of the time: how it reads the clock, and that it takes some time but not long.
served-told :
    {W D M : Type 0} (lib : Library W D M) (ticks : TicksFn W) (nanos : W → ℕ)
    → IsClock ticks nanos
    → IsServing lib nanos
    → (s : Program W D M)
    → ((served lib ticks s).0 ≡ u32 (nanos (served lib ticks s).1.pam.world / 1000000))
      × (nanos s.pam.world < nanos (served lib ticks s).1.pam.world)
      × (nanos (served lib ticks s).1.pam.world < nanos s.pam.world + 1000000 * 2 ^ 30)
unfolding served now_of
served-told lib ticks nanos clock serving s =
    let s' = (lib.slave_service s).1 in
    let (slave_on, slave_soon) = serving.slave s in
    let (map_on, map_soon) = serving.register_map s' in
    elim (Bool-cases (lib.slave_service s).0) [
      | inl e ↦
          let w = (lib.register_map_service s').pam.world in
          let runs = clock.runs w in
          let soon = clock.quick w in rw e (clock.tells w, omega arith, omega arith)
      | inr e ↦
          let w = s'.pam.world in
          let runs = clock.runs w in
          let soon = clock.quick w in rw e (clock.tells w, omega arith, omega arith)
    ]

module _ {W D M : Type 0} (lib : Library W D M) (ticks : TicksFn W) (nanos : W → ℕ)
    (clock : IsClock ticks nanos) (serving : IsServing lib nanos) (timeout : ℕ)
    (small : timeout < 2 ^ 31) (s₀ : Program W D M) where
  Ended-if :
      (b : Bool) {x y : Option (ℤ × Program W D M)}
      → (b ≡ true → Ended lib ticks nanos timeout s₀ x)
      → (b ≡ false → Ended lib ticks nanos timeout s₀ y)
      → Ended lib ticks nanos timeout s₀ (if b then x else y)
  Ended-if true f g = f refl
  Ended-if false f g = g refl

  -- The passes behind the assignment in the pass from `t`.
  after-Ended :
      (start passes since : ℕ) (t s : Program W D M)
      → since ≡ (served lib ticks t).0
      → since ≢ 0
      → Waits lib ticks nanos timeout s₀ t
      → (served lib ticks t).1.assigned_id ≢ 0
      → Stays lib ticks nanos timeout s₀ (served lib ticks t).1 s
      → nanos (served lib ticks t).1.pam.world ≤ nanos s.pam.world
      → nanos s.pam.world < nanos (served lib ticks t).1.pam.world + 2000 * 1000000
      → nanos (served lib ticks t).1.pam.world + 2000 * 1000000 ≤ nanos s.pam.world + passes
      → Ended lib ticks nanos timeout s₀ (wait_from lib ticks start timeout passes since s)
  unfolding wait_from
  after-Ended start zero since t s e ne before a path lo hi enough = absurd (omega arith)
  after-Ended start (suc passes) since t s e ne before a path lo hi enough =
      let (now, s') = served lib ticks s in
      let (told, runs, soon) = served-told lib ticks nanos clock serving s in
      let (told₀, _, _) = served-told lib ticks nanos clock serving t in
      let kept : noted now since s' ≡ since = noted-set now since s' ne in
      let guard : (since == 0) ≡ false = ground arith in
      let x = nanos s'.pam.world / 1000000 in
      let y = nanos (served lib ticks t).1.pam.world / 1000000 in
      let gone : u32 (now + 2 ^ 32 - since) ≡ x - y =
        rw (told, e ∙ told₀) (elapsed x y (omega arith) (omega arith)) in
      rw (wait_from, kept, guard, gone)
        (Ended-if (leb 2000 (x - y)) (λ p. found before a (λ q. ne (e ∙ q)) path (ground arith))
          (λ p.
            let early : x - y < 2000 = ground arith in
            after-Ended start passes since t s' e ne before a (later path (omega arith))
              (omega arith) (omega arith) (omega arith)))

  -- The passes before an assignment.
  before-Ended :
      (start passes : ℕ) (s : Program W D M)
      → start ≡ u32 (nanos s₀.pam.world / 1000000)
      → Waits lib ticks nanos timeout s₀ s
      → nanos s₀.pam.world ≤ nanos s.pam.world
      → nanos s.pam.world < nanos s₀.pam.world + (timeout + 1) * 1000000
      → nanos s₀.pam.world + (timeout + 2001) * 1000000 ≤ nanos s.pam.world + passes
      → Ended lib ticks nanos timeout s₀ (wait_from lib ticks start timeout passes 0 s)
  unfolding wait_from
  before-Ended start zero s e path lo hi enough = absurd (omega arith)
  before-Ended start (suc passes) s e path lo hi enough =
      let (now, s') = served lib ticks s in
      let (told, runs, soon) = served-told lib ticks nanos clock serving s in
      elim (noted-fresh now s') [
        | inl (none_yet, unnoted) ↦
            let x = nanos s'.pam.world / 1000000 in
            let y = nanos s₀.pam.world / 1000000 in
            let gone : u32 (now + 2 ^ 32 - start) ≡ x - y =
              rw (told, e) (elapsed x y (omega arith) (omega arith)) in
            rw (wait_from, none_yet, gone)
              (Ended-if (leb timeout (x - y))
                (λ p.
                  let late : timeout ≤ x - y = ground arith in gave_up path unnoted (omega arith))
                (λ p.
                  let early : x - y < timeout = ground arith in
                  before-Ended start passes s' e (next path unnoted (omega arith)) (omega arith)
                    (omega arith) (omega arith)))
        | inr (fresh, assigned, now_set) ↦
            let guard : (now == 0) ≡ false = ground arith in
            let not_yet : leb 2000 (u32 (now + 2 ^ 32 - now)) ≡ false = ground arith in
            rw (wait_from, fresh, guard, not_yet)
              (after-Ended start passes now s s' refl now_set path assigned at_once (omega arith)
                (omega arith) (omega arith))
      ]

-- The wait of `main` comes to an end with the right answer: with a timeout below 2 ^ 31 milliseconds, a clock that
-- behaves as documented, and calls of the clock and of the services of pamodbus-disco that take less than 2 ^ 28 ms
-- each, the loop is done after `1000000 * (timeout + 2001)` passes at most. The code is 0 if all
-- passes before the first one that left an identifier assigned ended within the timeout; the program has kept serving
-- then until the first pass that ends two seconds after that one. The code is 1 if the timeout has passed and no pass until then left an identifier assigned, other than at a
-- reading of 0 of the clock; it ends after the first pass with the timeout passed.
pub wait_from-Ended :
    {W D M : Type 0} (lib : Library W D M) (ticks : TicksFn W) (nanos : W → ℕ) (start timeout : ℕ)
    (s : Program W D M)
    → IsClock ticks nanos
    → IsServing lib nanos
    → timeout < 2 ^ 31
    → start ≡ u32 (nanos s.pam.world / 1000000)
    → Ended lib ticks nanos timeout s
        (wait_from lib ticks start timeout ((timeout + 2001) * 1000000) 0 s)
wait_from-Ended lib ticks nanos start timeout s clock serving small e =
    before-Ended lib ticks nanos clock serving timeout small s start ((timeout + 2001) * 1000000) s
      e here (omega arith) (omega arith) (omega arith)
