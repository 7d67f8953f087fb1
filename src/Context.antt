-- ===== src/Context.antt =====
-- src/pamodbus_internal.h and the enums of include/pamodbus.h: the context, its callbacks, the
-- return codes; `pa_modbus_init` of src/pamodbus.c. The setters, getters and accessors are children.
pub mod Config
pub mod Access
pub mod Valid
pub mod Untouched
mod Tests
use pamodbus.Common.{ℕ, List, [], ◌∷◌, Option, none, ℤ, pos, negsuc, Pointer, replicate, ◌+◌, ◌/◌}

-- `pa_error_t`
abbrev pub pa_ok : ℤ
pa_ok = pos 0

abbrev pub pa_wait : ℤ
pa_wait = pos 1

abbrev pub pa_err_crc : ℤ
pa_err_crc = negsuc 0

abbrev pub pa_err_timeout : ℤ
pa_err_timeout = negsuc 1

abbrev pub pa_err_invalid_slave : ℤ
pa_err_invalid_slave = negsuc 2

abbrev pub pa_err_bad_param : ℤ
pa_err_bad_param = negsuc 3

abbrev pub pa_err_buffer_full : ℤ
pa_err_buffer_full = negsuc 4

abbrev pub pa_err_exception : ℤ
pa_err_exception = negsuc 5

abbrev pub pa_err_protocol : ℤ
pa_err_protocol = negsuc 6

abbrev pub pa_err_state : ℤ
pa_err_state = negsuc 7

abbrev pub pa_err_callback : ℤ
pa_err_callback = negsuc 8

-- `pa_framer_t`, `pa_modbus_mode_t`, and which table `ctx->framer` points to.
pub data FramerType : Type 0 where
  rtu tcp : FramerType

pub data Mode : Type 0 where
  master slave_mode : Mode

pub data FramerOps : Type 0 where
  rtu_ops tcp_ops : FramerOps

-- The callback types. A callback is registered with its `userdata`, so the two are one function;
-- `W` is the state of the world outside, which a callback reads and changes. A callback that fills
-- an array returns what it stores from the array's start on.
module _ (W : Type 0) where
  abbrev pub SendFn : Type 0
  SendFn = List ℕ → ℕ → W → ℤ × W

  abbrev pub RecvFn : Type 0
  RecvFn = ℕ → W → ℤ × List ℕ × W

  abbrev pub TicksFn : Type 0
  TicksFn = W → ℕ × W

  -- (addr, count): coils, discrete inputs, holding and input registers
  abbrev pub ReadFn : Type 0
  ReadFn = ℕ → ℕ → W → ℤ × List ℕ × W

  abbrev pub WriteOneFn : Type 0
  WriteOneFn = ℕ → ℕ → W → ℤ × W

  abbrev pub WriteManyFn : Type 0
  WriteManyFn = ℕ → ℕ → List ℕ → W → ℤ × W

pub record Callbacks (W : Type 0) : Type 0 where
  pub ticks_cb : Option (TicksFn W)
  pub send_cb : Option (SendFn W)
  pub recv_cb : Option (RecvFn W)
  pub read_coils_cb : Option (ReadFn W)
  pub read_discrete_inputs_cb : Option (ReadFn W)
  pub read_holding_registers_cb : Option (ReadFn W)
  pub read_input_registers_cb : Option (ReadFn W)
  pub write_single_coil_cb : Option (WriteOneFn W)
  pub write_single_register_cb : Option (WriteOneFn W)
  pub write_multiple_coils_cb : Option (WriteManyFn W)
  pub write_multiple_registers_cb : Option (WriteManyFn W)

-- `struct pa_modbus`. The last two fields are not in the struct: the static counter of
-- src/framer_tcp.c, and the world that the callbacks act on.
pub record Modbus (W : Type 0) : Type 0 where
  pub txbuf : Pointer
  pub txbuf_size : ℕ
  pub rxbuf : Pointer
  pub rxbuf_size : ℕ
  pub framer_type : FramerType
  pub framer : FramerOps
  pub slave : ℕ
  pub discovery_addr : ℕ
  pub mode : Mode
  pub mode_set : ℕ
  pub idle_timeout_ticks : ℕ
  pub callbacks : Callbacks W
  pub tx_len : ℕ
  pub rx_len : ℕ
  pub last_rx_tick : ℕ
  pub last_error : ℤ
  pub last_exception : ℕ
  pub last_function : ℕ
  pub last_coil_data : List ℕ
  pub last_reg_data : List ℕ
  pub last_coil_count : ℕ
  pub last_reg_count : ℕ
  pub slave_addr : ℕ
  pub slave_count : ℕ
  pub slave_coil_data : List ℕ
  pub slave_reg_data : List ℕ
  pub slave_coil_count : ℕ
  pub slave_reg_count : ℕ
  pub slave_data_valid : ℕ
  pub next_transaction_id : ℕ
  pub world : W

-- The sizes of the arrays in the struct, and `PA_FRAMER_MAX_OVERHEAD`.
abbrev pub coil_bytes : ℕ
coil_bytes = 256 / 8 + 1

abbrev pub reg_words : ℕ
reg_words = 128

abbrev pub pa_framer_max_overhead : ℕ
pa_framer_max_overhead = 7

abbrev pub no_callbacks : {W : Type 0} → Callbacks W
no_callbacks = record {
  ticks_cb = none;
  send_cb = none;
  recv_cb = none;
  read_coils_cb = none;
  read_discrete_inputs_cb = none;
  read_holding_registers_cb = none;
  read_input_registers_cb = none;
  write_single_coil_cb = none;
  write_single_register_cb = none;
  write_multiple_coils_cb = none;
  write_multiple_registers_cb = none;
}

-- `pa_modbus_init`: the arguments are what it does not touch.
unfoldable pub init : {W : Type 0} → ℕ → W → Modbus W
init next_transaction_id world = record {
  txbuf = none;
  txbuf_size = 0;
  rxbuf = none;
  rxbuf_size = 0;
  framer_type = rtu;
  framer = rtu_ops;
  slave = 0xff;
  discovery_addr = 0;
  mode = master;
  mode_set = 0;
  idle_timeout_ticks = 10;
  callbacks = no_callbacks;
  tx_len = 0;
  rx_len = 0;
  last_rx_tick = 0;
  last_error = pa_ok;
  last_exception = 0;
  last_function = 0;
  last_coil_data = replicate coil_bytes 0;
  last_reg_data = replicate reg_words 0;
  last_coil_count = 0;
  last_reg_count = 0;
  slave_addr = 0;
  slave_count = 0;
  slave_coil_data = replicate coil_bytes 0;
  slave_reg_data = replicate reg_words 0;
  slave_coil_count = 0;
  slave_reg_count = 0;
  slave_data_valid = 0;
  next_transaction_id = next_transaction_id;
  world = world;
}

-- What an operation returns: `none` is an access outside an array, else the `int` and the context.
abbrev pub Result : Type 0 → Type 0
Result W = Option (ℤ × Modbus W)
