-- ===== src/Host/SlaveDisco.antt =====
-- host/slave_disco.c: the program that waits to be discovered.
pub mod Random
pub mod Main
pub mod Wait
pub mod Identity
use pamodbus.Common.{
  ℕ, zero, suc, ◌+◌, ◌-◌, ◌*◌, ◌%◌, ◌^◌, List, [], ◌∷◌, Option, none, some, ℤ, pos, Bool, true,
  false,
}
use pamodbus.Common.{
  leb, ltb, ◌==◌, not, ◌&&◌, if◌then◌else◌, u8, u16, u32, u32_of, is_zero, get_elem?, write, ◌>>=◌,
  switch, replicate, Pointer,
}
use pamodbus.Context.{Modbus, init, rtu, slave_mode, TicksFn}
use pamodbus.Context.Config.{
  set_framer, set_txbuf, set_rxbuf, set_slave, set_discovery_addr, set_send_cb, set_recv_cb,
  set_ticks_cb, set_mode,
}
use pamodbus.Context.Access.{slave_function, get_slave_addr, get_slave_count}
use pamodbus.Host.Posix.{Posix}
use pamodbus.Host.Port.{Port, FlushFn, DelayMsFn}
use pamodbus.Host.Serial.{Serial, build_port}
use pamodbus.Host.Serial.Open.{serial_open, serial_close}

-- The static variables of the file. `D` is `pa_disco_slave_dev_t` and `M` is `pa_disco_register_map_t`,
-- which the library pamodbus-disco defines.
pub record Program (W D M : Type 0) : Type 0 where
  pub pam : Modbus W
  pub disco : D
  pub map : M
  pub holding : List ℕ
  pub serialno : List ℕ
  pub assigned_id : ℕ
  pub s_rand : ℕ

abbrev serialno_words : ℕ
serialno_words = 6

-- What pamodbus-disco provides: its constants, and its functions on the state of the program. The calls
-- that register this file's functions, settings and arrays with the library are one function each.
pub record Library (W D M : Type 0) : Type 0 where
  pub disco_addr : ℕ
  pub reg_start : ℕ
  pub holding_nregs : ℕ
  pub register_map_init : Program W D M → Program W D M
  -- (first, count)
  pub register_map_set_holding : ℕ → ℕ → Program W D M → Program W D M
  pub register_map_set_req_cb : Program W D M → Program W D M
  pub slave_init : Program W D M → Program W D M
  pub slave_set_callbacks : Program W D M → Program W D M
  pub slave_set_window : ℕ → ℕ → Program W D M → Program W D M
  pub slave_set_serialno : Program W D M → Program W D M
  pub slave_service : Program W D M → Bool × Program W D M
  pub register_map_service : Program W D M → Program W D M
  -- (reg, cnt)
  pub slave_read_cb : ℕ → ℕ → Program W D M → ℤ × Program W D M
  pub slave_write_cb : ℕ → ℕ → Program W D M → ℤ × Program W D M

-- `port_ticks`, `slave_flush` and `slave_delay`: the functions of the port, as far as there are any.
unfoldable pub port_ticks : {W : Type 0} → TicksFn W → W → ℕ × W
port_ticks ticks w = ticks w

unfoldable pub slave_flush : {W : Type 0} → Option (FlushFn W) → W → W
slave_flush none w = w
slave_flush (some flush) w = flush w

unfoldable pub slave_delay : {W : Type 0} → Option (DelayMsFn W) → ℕ → W → W
slave_delay none ms w = w
slave_delay (some delay_ms) ms w = delay_ms ms w

-- `none` is a division by 0.
unfoldable pub slave_random : ℕ → ℕ → ℕ → Option (ℕ × ℕ)
slave_random min max s_rand =
    if leb max min
    then some (min, s_rand)
    else (let s = u32 (u32 (s_rand * 1664525) + 1013904223) in
        let width = u32 (max - min + 1) in
        if width == 0 then none else some (u32 (min + s % width), s))

module _ {W D M : Type 0} (lib : Library W D M) where
  unfoldable pub req_cb : Program W D M → ℤ × Program W D M
  req_cb s =
      let fn = slave_function s.pam in
      let reg = get_slave_addr s.pam in
      let cnt = get_slave_count s.pam in
      switch fn
        ((0x03, lib.slave_read_cb reg cnt s)
          ∷ (0x06, lib.slave_write_cb reg 1 s)
          ∷ (0x10, lib.slave_write_cb reg cnt s)
          ∷ [])
        (pos 1, s)

  unfoldable pub notify : ℕ → Program W D M → Program W D M
  notify slave_id s = record s { assigned_id = slave_id }

  -- `holding[PA_DISCO_REG_START + 1 + i] = serialno[i]` for the `left` indices from `i` on.
  unfoldable pub copy_serialno : ℕ → ℕ → List ℕ → List ℕ → Option (List ℕ)
  copy_serialno i zero serialno holding = some holding
  copy_serialno i (suc left) serialno holding = get_elem? serialno i >>= λ word.
      write holding (lib.reg_start + 1 + i) word >>= λ holding.
      copy_serialno (i + 1) left serialno holding

  -- `serialno[i] = (uint16_t)(i + 1u)` for the `left` indices from `i` on.
  unfoldable pub number_serialno : ℕ → ℕ → List ℕ → Option (List ℕ)
  number_serialno i zero serialno = some serialno
  number_serialno i (suc left) serialno =
      write serialno i (u16 (i + 1)) >>= λ serialno. number_serialno (i + 1) left serialno

  -- From `pa_modbus_init` to `pa_modbus_set_mode`: `tx_buf` and `rx_buf` are the static arrays.
  unfoldable pub set_up_modbus : Port W → List ℕ → List ℕ → W → Modbus W
  set_up_modbus port tx_buf rx_buf w =
      let c₀ = set_framer (init 1 w) rtu in
      let c₁ = set_rxbuf (set_txbuf c₀ (some tx_buf) 256) (some rx_buf) 256 in
      let c₂ = set_discovery_addr (set_slave c₁ 0) lib.disco_addr in
      let c₃ = set_recv_cb (set_send_cb c₂ port.send) port.recv in
      set_mode (set_ticks_cb c₃ port.ticks) slave_mode

  -- From `pa_disco_register_map_init` to `pa_disco_slave_set_serialno`.
  unfoldable pub set_up_disco : Program W D M → Option (Program W D M)
  unfolding copy_serialno number_serialno
  set_up_disco s =
      let s₁ = lib.register_map_set_holding 0 lib.holding_nregs (lib.register_map_init s) in
      write s₁.holding lib.reg_start 0 >>= λ holding.
      copy_serialno 0 serialno_words s₁.serialno holding >>= λ holding.
      let s₂ = lib.register_map_set_req_cb (record s₁ { holding = holding }) in
      number_serialno 0 serialno_words s₂.serialno >>= λ serialno.
      let s₃ = lib.slave_set_callbacks (lib.slave_init (record s₂ { serialno = serialno })) in
      some (lib.slave_set_serialno (lib.slave_set_window 10 60 s₃))
