-- ===== src/Pdu/Feed/Safe.antt =====
-- The feed functions of src/pdu.c over RTU and the bounds of the arrays.
use pamodbus.Common.{
  ℕ, if-all, ◌+◌, ◌≤◌, List, some, ◌≡◌, sym, arith, ◌∙◌, length, length-drop, drop,
}
use pamodbus.Common.{is_negative, Option-cases, inl, inr}
use pamodbus.Context.{Modbus, rtu_ops}
use pamodbus.Context.Valid.{IsValid, Keeps, keeps, Keeps-bind}
use pamodbus.Framer.Outcome.{Unwrapped, pdu_at, stopped}
use pamodbus.Framer.Ops.{unwrap, unwrap-rtu_unwrap}
use pamodbus.Framer.Rtu.Accept.{rtu_unwrap-inside}
use pamodbus.Framer.Rtu.Total.{rtu_unwrap-total}
use pamodbus.Pdu.Master.Safe.{parse_master_response-Keeps}
use pamodbus.Pdu.Slave.Safe.{parse_slave_request-Keeps}
use pamodbus.Pdu.Feed.{master_dispatch, slave_dispatch, master_feed, slave_feed}

module _ {W : Type 0} (ctx : Modbus W) (v : IsValid ctx) (over_rtu : ctx.framer ≡ rtu_ops)
    (bytes : List ℕ) (len : ℕ) (fits : len ≤ length bytes) where
  pub unwrap-some : (u : Unwrapped) × (unwrap ctx bytes len ≡ some u)
  unwrap-some = elim (Option-cases (unwrap ctx bytes len)) [
    | inl e ↦
        absurd
          (rtu_unwrap-total ctx bytes len fits (sym (unwrap-rtu_unwrap ctx over_rtu bytes len) ∙ e))
    | inr (u, e) ↦ (u, e)
  ]

  pub unwrap-inside :
      {off n : ℕ} → unwrap ctx bytes len ≡ some (pdu_at off n) → (off ≡ 1) × (n + 3 ≤ len)
  unwrap-inside e =
      rtu_unwrap-inside ctx bytes len (sym (unwrap-rtu_unwrap ctx over_rtu bytes len) ∙ e)

  master_dispatch-Keeps :
      (u : Unwrapped) → unwrap ctx bytes len ≡ some u → Keeps (master_dispatch ctx bytes u)
  unfolding master_dispatch
  master_dispatch-Keeps (pdu_at off n) e =
      parse_master_response-Keeps ctx (drop off bytes) n v
        (omega (arith, unwrap-inside e, length-drop off bytes))
  master_dispatch-Keeps (stopped ret) e = keeps (if-all IsValid (is_negative ret) (omega arith) v)

  slave_dispatch-Keeps :
      (u : Unwrapped) → unwrap ctx bytes len ≡ some u → Keeps (slave_dispatch ctx bytes u)
  unfolding slave_dispatch
  slave_dispatch-Keeps (pdu_at off n) e =
      parse_slave_request-Keeps ctx (drop off bytes) n v
        (omega (arith, unwrap-inside e, length-drop off bytes))
  slave_dispatch-Keeps (stopped ret) e = keeps v

  -- Over RTU, from a valid context, the two feed functions make no access outside an array, whatever
  -- the data is, if the array has the length that is given; they return, and leave a valid context.
  pub feeds-Keeps : Keeps (master_feed ctx bytes len) × Keeps (slave_feed ctx bytes len)
  unfolding master_feed slave_feed
  feeds-Keeps =
      let (u, e) = unwrap-some in
      (Keeps-bind _ e (master_dispatch-Keeps u e), Keeps-bind _ e (slave_dispatch-Keeps u e))
