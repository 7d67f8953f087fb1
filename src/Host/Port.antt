-- ===== src/Host/Port.antt =====
-- include/pa_port.h: the transport as a table of functions, with the provider's state bound in.
use pamodbus.Common.{ℕ, Option, ℤ, Bool}
use pamodbus.Context.{SendFn, RecvFn, TicksFn}

module _ (W : Type 0) where
  abbrev pub OpenFn : Type 0
  OpenFn = W → ℤ × W

  abbrev pub SetDirFn : Type 0
  SetDirFn = Bool → W → ℤ × W

  abbrev pub FlushFn : Type 0
  FlushFn = W → W

  abbrev pub DelayMsFn : Type 0
  DelayMsFn = ℕ → W → W

-- `pa_port_t`; `none` is NULL.
pub record Port (W : Type 0) : Type 0 where
  pub open_port : Option (OpenFn W)
  pub send : Option (SendFn W)
  pub recv : Option (RecvFn W)
  pub ticks : Option (TicksFn W)
  pub set_dir : Option (SetDirFn W)
  pub flush : Option (FlushFn W)
  pub delay_ms : Option (DelayMsFn W)
