-- ===== src/Pdu/Feed/Frame.antt =====
-- The feed functions of src/pdu.c and the rest of the context.
use pamodbus.Common.{ℕ, List, if-all, ◌≡◌, refl, drop, is_negative}
use pamodbus.Context.{Modbus}
use pamodbus.Context.Untouched.{setup_of, Untouched, untouched, Untouched-bind}
use pamodbus.Framer.Outcome.{Unwrapped, pdu_at, stopped}
use pamodbus.Framer.Ops.{unwrap}
use pamodbus.Pdu.Master.Frame.{parse_master_response-Untouched}
use pamodbus.Pdu.Slave.Frame.{parse_slave_request-Untouched}
use pamodbus.Pdu.Feed.{master_dispatch, slave_dispatch, master_feed, slave_feed}

module _ {W : Type 0} (ctx : Modbus W) (bytes : List ℕ) where
  master_dispatch-Untouched :
      (u : Unwrapped) → Untouched (setup_of ctx) (master_dispatch ctx bytes u)
  unfolding master_dispatch
  master_dispatch-Untouched (pdu_at off n) = parse_master_response-Untouched ctx (drop off bytes) n
  master_dispatch-Untouched (stopped ret) =
      untouched (if-all (λ c. setup_of c ≡ setup_of ctx) (is_negative ret) refl refl)

  slave_dispatch-Untouched : (u : Unwrapped) → Untouched (setup_of ctx) (slave_dispatch ctx bytes u)
  unfolding slave_dispatch
  slave_dispatch-Untouched (pdu_at off n) = parse_slave_request-Untouched ctx (drop off bytes) n
  slave_dispatch-Untouched (stopped ret) = untouched refl

  -- The two feed functions change only the results of a parse, over either framer and whatever the
  -- data is: if one returns, then the buffers, the configuration, the callbacks and the state of the
  -- sender and the receiver are as before.
  pub feeds-Untouched :
      (len : ℕ)
      → Untouched (setup_of ctx) (master_feed ctx bytes len)
        × Untouched (setup_of ctx) (slave_feed ctx bytes len)
  unfolding master_feed slave_feed
  feeds-Untouched len = (
    Untouched-bind (unwrap ctx bytes len) master_dispatch-Untouched,
    Untouched-bind (unwrap ctx bytes len) slave_dispatch-Untouched,
  )
