-- ===== src/Host/MasterDisco.antt =====
-- host/master_disco.c: the program that scans for slaves.
pub mod Scan
use pamodbus.Common.{
  ℕ, zero, suc, ◌+◌, ◌-◌, ◌*◌, ◌^◌, List, [], ◌∷◌, Option, none, some, ℤ, pos, replicate,
}
use mathlib.Core.Option
use pamodbus.Common.{ltb, ◌==◌, if◌then◌else◌, u32, u32_of}
use pamodbus.Context.{Modbus, init, rtu, master, TicksFn}
use pamodbus.Context.Config.{
  set_framer, set_txbuf, set_rxbuf, set_slave, set_send_cb, set_recv_cb, set_ticks_cb,
  set_rx_idle_timeout, set_mode,
}
use pamodbus.Host.Posix.{Posix}
use pamodbus.Host.Port.{Port, FlushFn}
use pamodbus.Host.Serial.{Serial, ser_ticks, build_port}
use pamodbus.Host.Serial.Open.{serial_open, serial_close}

-- `pa_disco_settings_t`, as far as the file names its fields.
pub record Settings : Type 0 where
  pub window_time : ℕ
  pub refresh_period : ℕ
  pub repeat_cycles : ℕ
  pub window_guard_time : ℕ
  pub reset_repeat_cycles : ℕ
  pub verify_repeat_cycles : ℕ

abbrev pub settings : Settings
settings = record {
  window_time = 250;
  refresh_period = 0;
  repeat_cycles = 3;
  window_guard_time = 50;
  reset_repeat_cycles = 2;
  verify_repeat_cycles = 4;
}

-- The static variables of the file. `D` is `pa_disco_master_t`, which the library pamodbus-disco defines.
pub record Scanner (W D : Type 0) : Type 0 where
  pub pam : Modbus W
  pub disco : D
  pub found : ℕ

-- What pamodbus-disco provides, on the state of the program.
pub record MasterLibrary (W D : Type 0) : Type 0 where
  pub master_init : Scanner W D → Scanner W D
  pub master_set_settings : Settings → Scanner W D → Scanner W D
  pub master_set_callbacks : Scanner W D → Scanner W D
  pub master_service : Scanner W D → Scanner W D

unfoldable pub disco_flush : {W : Type 0} → Option (FlushFn W) → W → W
disco_flush none w = w
disco_flush (some flush) w = flush w

-- `set_up_master`: from `pa_modbus_init` to `pa_modbus_set_mode`.
unfoldable pub set_up_master : {W : Type 0} → Port W → List ℕ → List ℕ → W → Modbus W
set_up_master port tx_buf rx_buf w =
    let c₀ = set_framer (init 1 w) rtu in
    let c₁ = set_rxbuf (set_txbuf c₀ (some tx_buf) 256) (some rx_buf) 256 in
    let c₂ = set_recv_cb (set_send_cb (set_slave c₁ 1) port.send) port.recv in
    set_mode (set_rx_idle_timeout (set_ticks_cb c₂ port.ticks) 300) master

module _ {W D : Type 0} where
  -- `slave` is the identifier of the slave, or NULL.
  unfoldable pub master_notify : Option ℕ → Scanner W D → Scanner W D
  master_notify none s = s
  master_notify (some slave) s = record s { found = 1 }

  unfoldable pub clock_now : TicksFn W → Scanner W D → ℕ × Scanner W D
  clock_now ticks s =
      let (now, w) = ticks s.pam.world in (now, record s { pam = record (s.pam) { world = w } })

module _ {W D T : Type 0} (lib : MasterLibrary W D) (os : Posix W T) where
  -- The body of the loop.
  unfoldable pub scan_pass : Scanner W D → Scanner W D
  scan_pass s =
      let s' = lib.master_service s in
      record s' { pam = record (s'.pam) { world = os.usleep 20000 s'.pam.world } }

module _ {W D T : Type 0} (lib : MasterLibrary W D) (os : Posix W T) (ticks : TicksFn W) where
  -- The loop, with `passes` passes left: `none` is a loop that is not done by then.
  unfoldable pub scan_until : ℕ → ℕ → ℕ → Scanner W D → Option (Scanner W D)
  unfolding clock_now scan_pass
  scan_until start max_ms zero s = none
  scan_until start max_ms (suc passes) s =
      let (now, s') = clock_now ticks s in
      let rest = scan_until start max_ms passes (scan_pass lib os s') in
      if s.found == 0
      then (if ltb (u32 (now + 2 ^ 32 - start)) max_ms then rest else some s')
      else some s

module _ {W D T : Type 0} (lib : MasterLibrary W D) (os : Posix W T) (calls : W → ℕ) where
  -- `window` is the third argument, if it is given: the scan window in seconds.
  unfoldable pub max_ms_of : Option ℤ → ℕ
  max_ms_of none = 12000
  max_ms_of (some window) = u32 (u32_of window * 1000)

  unfoldable pub with_open : ℕ → Option ℤ → D → Option Serial → W → Option (ℤ × W)
  unfolding set_up_master clock_now scan_until max_ms_of
  with_open passes window d none w = some (pos 1, w)
  with_open passes window d (some h) w =
      let pam = set_up_master (build_port os calls h) (replicate 256 0) (replicate 256 0) w in
      let s = lib.master_init (record { pam = pam; disco = d; found = 0 }) in
      let s' = lib.master_set_callbacks (lib.master_set_settings settings s) in
      let (start, s'') = clock_now (ser_ticks os) s' in
      Option.map
        (λ end. ((if end.found == 0 then pos 1 else pos 0), serial_close os (some h) end.pam.world))
        (scan_until lib os (ser_ticks os) start (max_ms_of window) passes s'')

  -- The device, the baud rate and the scan window in seconds, if there is one.
  unfoldable pub master_arguments : (List ℕ → ℤ) → List (List ℕ) → Option (List ℕ × ℕ × Option ℤ)
  master_arguments atoi (name ∷ device ∷ baud ∷ []) = some (device, u32_of (atoi baud), none)
  master_arguments atoi (name ∷ device ∷ baud ∷ window ∷ more) =
      some (device, u32_of (atoi baud), some (atoi window))
  master_arguments atoi few = none

  -- `main`, with the static variables of the library in `d`: `passes` bounds the passes of the loop.
  unfoldable pub master_main : ℕ → (List ℕ → ℤ) → List (List ℕ) → D → W → Option (ℤ × W)
  unfolding with_open master_arguments
  master_main passes atoi argv d w = elim (master_arguments atoi argv) [
    | none ↦ some (pos 2, w)
    | some (device, baud, window) ↦
        let (h, w') = serial_open os device baud w in with_open passes window d h w'
  ]
