-- ===== src/Host/SlaveDisco/Main.antt =====
-- host/slave_disco.c: `main`, with what it prints left out.
use pamodbus.Common.{ℕ, zero, suc, ◌+◌, ◌-◌, ◌*◌, ◌^◌, List, [], ◌∷◌, Option, none, some, ℤ, pos}
use pamodbus.Common.{leb, ◌==◌, not, ◌&&◌, if◌then◌else◌, u32, u32_of, ◌>>=◌, replicate}
use pamodbus.Context.{TicksFn}
use pamodbus.Host.Posix.{Posix}
use pamodbus.Host.Serial.{Serial, ser_ticks, build_port}
use pamodbus.Host.Serial.Open.{serial_open, serial_close}
use pamodbus.Host.SlaveDisco.{Program, Library, serialno_words, set_up_modbus, set_up_disco}

module _ {W D M : Type 0} where
  -- `port.ticks(port.userdata)`
  unfoldable pub now_of : TicksFn W → Program W D M → ℕ × Program W D M
  now_of ticks s =
      let (now, w) = ticks s.pam.world in (now, record s { pam = record (s.pam) { world = w } })

  -- `assigned_start` of the pass.
  abbrev pub noted : ℕ → ℕ → Program W D M → ℕ
  noted now assigned_start s =
      if not (s.assigned_id == 0) && assigned_start == 0 then now else assigned_start

module _ {W D M : Type 0} (lib : Library W D M) (ticks : TicksFn W) where
  -- The service of the library, then the time.
  unfoldable pub served : Program W D M → ℕ × Program W D M
  unfolding now_of
  served s =
      let (go_on, s') = lib.slave_service s in
      now_of ticks (if go_on then lib.register_map_service s' else s')

  -- The endless loop, with `passes` passes left: `none` is a loop that is not done by then.
  unfoldable pub wait_from : ℕ → ℕ → ℕ → ℕ → Program W D M → Option (ℤ × Program W D M)
  unfolding served
  wait_from start timeout zero assigned_start s = none
  wait_from start timeout (suc passes) assigned_start s =
      let (now, s') = served s in
      let since = noted now assigned_start s' in
      let rest = wait_from start timeout passes since s' in
      if not (since == 0)
      then (if leb 2000 (u32 (now + 2 ^ 32 - since)) then some (pos 0, s') else rest)
      else (if leb timeout (u32 (now + 2 ^ 32 - start)) then some (pos 1, s') else rest)

module _ {W D M T : Type 0} (lib : Library W D M) (os : Posix W T) (calls : W → ℕ) where
  -- The static variables before `main`, with the library's in `d` and `m`.
  unfoldable pub loaded : Serial → D → M → W → Program W D M
  unfolding set_up_modbus
  loaded h d m w = record {
    pam = set_up_modbus lib (build_port os calls h) (replicate 256 0) (replicate 256 0) w;
    disco = d;
    map = m;
    holding = replicate lib.holding_nregs 0;
    serialno = replicate serialno_words 0;
    assigned_id = 0;
    s_rand = 0x2468ACE0;
  }

  unfoldable pub with_serial : ℕ → ℤ → D → M → Option Serial → W → Option (ℤ × W)
  unfolding loaded set_up_disco now_of wait_from
  with_serial passes timeout_s d m none w = some (pos 1, w)
  with_serial passes timeout_s d m (some h) w = set_up_disco lib (loaded h d m w) >>= λ s.
      let (start, s') = now_of (ser_ticks os) s in
      wait_from lib (ser_ticks os) start (u32 (u32_of timeout_s * 1000)) passes 0 s'
      >>= λ (rc, s''). some (rc, serial_close os (some h) s''.pam.world)

  -- The device, the baud rate and the timeout in seconds, if there are as many arguments as that.
  unfoldable pub slave_arguments : (List ℕ → ℤ) → List (List ℕ) → Option (List ℕ × ℕ × ℤ)
  slave_arguments atoi (name ∷ device ∷ baud ∷ []) = some (device, u32_of (atoi baud), pos 30)
  slave_arguments atoi (name ∷ device ∷ baud ∷ timeout ∷ more) =
      some (device, u32_of (atoi baud), atoi timeout)
  slave_arguments atoi few = none

  -- `main`: `passes` bounds the passes of the loop.
  unfoldable pub slave_main : ℕ → (List ℕ → ℤ) → List (List ℕ) → D → M → W → Option (ℤ × W)
  unfolding with_serial slave_arguments
  slave_main passes atoi argv d m w = elim (slave_arguments atoi argv) [
    | none ↦ some (pos 2, w)
    | some (device, baud, timeout_s) ↦
        let (h, w') = serial_open os device baud w in with_serial passes timeout_s d m h w'
  ]
