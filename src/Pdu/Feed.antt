-- ===== src/Pdu/Feed.antt =====
-- src/pdu.c: `pa_modbus_master_feed` and `pa_modbus_slave_feed`.
pub mod Frame
pub mod Safe
pub mod Roundtrip
pub mod Transaction
pub mod Received
pub mod Session
pub mod Refine
pub mod Exceptions
mod Tests
use pamodbus.Common.{ℕ, List, some, drop, is_negative, if◌then◌else◌, ◌>>=◌}
use pamodbus.Context.{Modbus, Result}
use pamodbus.Framer.Outcome.{Unwrapped, pdu_at, stopped}
use pamodbus.Framer.Ops.{unwrap}
use pamodbus.Pdu.Master.{parse_master_response}
use pamodbus.Pdu.Slave.{parse_slave_request}

module _ {W : Type 0} (ctx : Modbus W) (bytes : List ℕ) where
  unfoldable pub master_dispatch : Unwrapped → Result W
  master_dispatch (pdu_at off n) = parse_master_response ctx (drop off bytes) n
  master_dispatch (stopped ret) =
      some (ret, (if is_negative ret then record ctx { last_error = ret } else ctx))

  unfoldable pub slave_dispatch : Unwrapped → Result W
  slave_dispatch (pdu_at off n) = parse_slave_request ctx (drop off bytes) n
  slave_dispatch (stopped ret) = some (ret, ctx)

  unfoldable pub master_feed : ℕ → Result W
  unfolding master_dispatch
  master_feed len = do u ← unwrap ctx bytes len; master_dispatch u

  unfoldable pub slave_feed : ℕ → Result W
  unfolding slave_dispatch
  slave_feed len = do u ← unwrap ctx bytes len; slave_dispatch u
