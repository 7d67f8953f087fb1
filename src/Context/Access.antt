-- ===== src/Context/Access.antt =====
-- src/pamodbus.c: the accessors of the transmit buffer, the last response and the last request.
use pamodbus.Common.{ℕ, ◌/◌, ◌%◌, List, Option, some, ℤ, Pointer, get_elem?, ◌>>=◌}
use pamodbus.Common.{leb, if◌then◌else◌, shr, low_bits}
use pamodbus.Context.{Modbus}

module _ {W : Type 0} where
  unfoldable pub tx_buf : Modbus W → Pointer
  tx_buf ctx = ctx.txbuf

  unfoldable pub get_tx_len : Modbus W → ℕ
  get_tx_len ctx = ctx.tx_len

  unfoldable pub get_error : Modbus W → ℤ
  get_error ctx = ctx.last_error

  unfoldable pub get_exception : Modbus W → ℕ
  get_exception ctx = ctx.last_exception

  -- `none` is a read outside the array.
  unfoldable pub get_coil : Modbus W → ℕ → Option ℕ
  get_coil ctx idx =
      if leb ctx.last_coil_count idx
      then some 0
      else do byte ← get_elem? ctx.last_coil_data (idx / 8); some (low_bits (shr byte (idx % 8)) 1)

  unfoldable pub get_register : Modbus W → ℕ → Option ℕ
  get_register ctx idx =
      if leb ctx.last_reg_count idx then some 0 else get_elem? ctx.last_reg_data idx

  unfoldable pub slave_function : Modbus W → ℕ
  slave_function ctx = ctx.last_function

  unfoldable pub get_slave_addr : Modbus W → ℕ
  get_slave_addr ctx = ctx.slave_addr

  unfoldable pub get_slave_count : Modbus W → ℕ
  get_slave_count ctx = ctx.slave_count

  unfoldable pub get_slave_coil_data : Modbus W → List ℕ
  get_slave_coil_data ctx = ctx.slave_coil_data

  unfoldable pub get_slave_reg_data : Modbus W → List ℕ
  get_slave_reg_data ctx = ctx.slave_reg_data
