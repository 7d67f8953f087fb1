-- ===== src/Context/Config.antt =====
-- src/pamodbus.c: the setters and getters of the configuration, and the callback registration.
use pamodbus.Common.{ℕ, Option, Pointer}
use pamodbus.Context.{Modbus, FramerType, rtu, tcp, FramerOps, rtu_ops, tcp_ops, Mode}
use pamodbus.Context.{SendFn, RecvFn, TicksFn, ReadFn, WriteOneFn, WriteManyFn}

-- The `switch` of `pa_modbus_set_framer`.
unfoldable pub ops_of : FramerType → FramerOps
ops_of rtu = rtu_ops
ops_of tcp = tcp_ops

module _ {W : Type 0} where
  unfoldable pub set_framer : Modbus W → FramerType → Modbus W
  unfolding ops_of
  set_framer ctx f = record ctx { framer_type = f; framer = ops_of f }

  unfoldable pub get_framer : Modbus W → FramerType
  get_framer ctx = ctx.framer_type

  unfoldable pub set_txbuf : Modbus W → Pointer → ℕ → Modbus W
  set_txbuf ctx buf size = record ctx { txbuf = buf; txbuf_size = size }

  unfoldable pub set_rxbuf : Modbus W → Pointer → ℕ → Modbus W
  set_rxbuf ctx buf size = record ctx { rxbuf = buf; rxbuf_size = size }

  unfoldable pub set_slave : Modbus W → ℕ → Modbus W
  set_slave ctx id = record ctx { slave = id }

  unfoldable pub get_slave : Modbus W → ℕ
  get_slave ctx = ctx.slave

  unfoldable pub set_discovery_addr : Modbus W → ℕ → Modbus W
  set_discovery_addr ctx addr = record ctx { discovery_addr = addr }

  unfoldable pub get_discovery_addr : Modbus W → ℕ
  get_discovery_addr ctx = ctx.discovery_addr

  unfoldable pub set_mode : Modbus W → Mode → Modbus W
  set_mode ctx m = record ctx { mode = m; mode_set = 1 }

  unfoldable pub get_mode : Modbus W → Mode
  get_mode ctx = ctx.mode

  unfoldable pub set_rx_idle_timeout : Modbus W → ℕ → Modbus W
  set_rx_idle_timeout ctx ticks = record ctx { idle_timeout_ticks = ticks }

  unfoldable pub rx_reset : Modbus W → Modbus W
  rx_reset ctx = record ctx { rx_len = 0 }

  unfoldable pub set_ticks_cb : Modbus W → Option (TicksFn W) → Modbus W
  set_ticks_cb ctx cb = record ctx { callbacks = record (ctx.callbacks) { ticks_cb = cb } }

  unfoldable pub set_send_cb : Modbus W → Option (SendFn W) → Modbus W
  set_send_cb ctx cb = record ctx { callbacks = record (ctx.callbacks) { send_cb = cb } }

  unfoldable pub set_recv_cb : Modbus W → Option (RecvFn W) → Modbus W
  set_recv_cb ctx cb = record ctx { callbacks = record (ctx.callbacks) { recv_cb = cb } }

  unfoldable pub set_read_coils_cb : Modbus W → Option (ReadFn W) → Modbus W
  set_read_coils_cb ctx cb = record ctx {
    callbacks = record (ctx.callbacks) { read_coils_cb = cb };
  }

  unfoldable pub set_read_discrete_inputs_cb : Modbus W → Option (ReadFn W) → Modbus W
  set_read_discrete_inputs_cb ctx cb = record ctx {
    callbacks = record (ctx.callbacks) { read_discrete_inputs_cb = cb };
  }

  unfoldable pub set_read_holding_registers_cb : Modbus W → Option (ReadFn W) → Modbus W
  set_read_holding_registers_cb ctx cb = record ctx {
    callbacks = record (ctx.callbacks) { read_holding_registers_cb = cb };
  }

  unfoldable pub set_read_input_registers_cb : Modbus W → Option (ReadFn W) → Modbus W
  set_read_input_registers_cb ctx cb = record ctx {
    callbacks = record (ctx.callbacks) { read_input_registers_cb = cb };
  }

  unfoldable pub set_write_single_coil_cb : Modbus W → Option (WriteOneFn W) → Modbus W
  set_write_single_coil_cb ctx cb = record ctx {
    callbacks = record (ctx.callbacks) { write_single_coil_cb = cb };
  }

  unfoldable pub set_write_single_register_cb : Modbus W → Option (WriteOneFn W) → Modbus W
  set_write_single_register_cb ctx cb = record ctx {
    callbacks = record (ctx.callbacks) { write_single_register_cb = cb };
  }

  unfoldable pub set_write_multiple_coils_cb : Modbus W → Option (WriteManyFn W) → Modbus W
  set_write_multiple_coils_cb ctx cb = record ctx {
    callbacks = record (ctx.callbacks) { write_multiple_coils_cb = cb };
  }

  unfoldable pub set_write_multiple_registers_cb : Modbus W → Option (WriteManyFn W) → Modbus W
  set_write_multiple_registers_cb ctx cb = record ctx {
    callbacks = record (ctx.callbacks) { write_multiple_registers_cb = cb };
  }
