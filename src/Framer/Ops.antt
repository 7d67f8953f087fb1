-- ===== src/Framer/Ops.antt =====
-- `ctx->framer->wrap` and `ctx->framer->unwrap`: src/pamodbus_internal.h, and the tables at the
-- ends of src/framer_rtu.c and src/framer_tcp.c.
use pamodbus.Common.{ℕ, List, Option, ◌≡◌, ap}
use pamodbus.Context.{Modbus, FramerOps, rtu_ops, tcp_ops}
use pamodbus.Framer.Outcome.{Wrapped, Unwrapped}
use pamodbus.Framer.Rtu.{rtu_overhead, rtu_wrap, rtu_unwrap}
use pamodbus.Framer.Tcp.{tcp_overhead, tcp_wrap, tcp_unwrap}

unfoldable pub overhead_of : FramerOps → ℕ
unfolding rtu_overhead tcp_overhead
overhead_of rtu_ops = rtu_overhead
overhead_of tcp_ops = tcp_overhead

module _ {W : Type 0} where
  unfoldable pub wrap_by : FramerOps → Modbus W → ℕ → Option (Wrapped W)
  wrap_by rtu_ops = rtu_wrap
  wrap_by tcp_ops = tcp_wrap

  unfoldable pub unwrap_by : FramerOps → Modbus W → List ℕ → ℕ → Option Unwrapped
  unwrap_by rtu_ops = rtu_unwrap
  unwrap_by tcp_ops = tcp_unwrap

  unfoldable pub wrap : Modbus W → ℕ → Option (Wrapped W)
  unfolding wrap_by
  wrap ctx = wrap_by ctx.framer ctx

  unfoldable pub unwrap : Modbus W → List ℕ → ℕ → Option Unwrapped
  unfolding unwrap_by
  unwrap ctx = unwrap_by ctx.framer ctx

-- The calls through the pointer, for a context over RTU.
module _ {W : Type 0} (ctx : Modbus W) (over_rtu : ctx.framer ≡ rtu_ops) where
  pub wrap-rtu_wrap : (pdu_len : ℕ) → wrap ctx pdu_len ≡ rtu_wrap ctx pdu_len
  unfolding wrap wrap_by
  wrap-rtu_wrap pdu_len = ap (λ f. wrap_by f ctx pdu_len) over_rtu

  pub unwrap-rtu_unwrap :
      (bytes : List ℕ) (len : ℕ) → unwrap ctx bytes len ≡ rtu_unwrap ctx bytes len
  unfolding unwrap unwrap_by
  unwrap-rtu_unwrap bytes len = ap (λ f. unwrap_by f ctx bytes len) over_rtu
