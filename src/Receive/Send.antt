-- ===== src/Receive/Send.antt =====
-- src/pamodbus.c: `pa_modbus_send` and `pa_modbus_send_raw`.
use pamodbus.Common.{ℕ, ◌+◌, ◌-◌, ◌^◌, List, Option, none, some, not}
use pamodbus.Common.{ℤ, pos, ltb, is_zero, if◌then◌else◌, size_t, deref, load, store, ◌>>=◌}
use pamodbus.Context.{Modbus, SendFn, Result, pa_framer_max_overhead}
use pamodbus.Context.{pa_ok, pa_err_buffer_full, pa_err_callback, pa_err_state}
use pamodbus.Framer.Outcome.{Wrapped, framed, refused}
use pamodbus.Framer.Ops.{wrap}
use pamodbus.Receive.Accumulate.{is_set}

module _ {W : Type 0} (ctx : Modbus W) where
  -- Call `send_cb` on the transmit buffer; `ok` is the return code on success.
  unfoldable pub transmit : SendFn W → ℤ → ℤ × Modbus W
  transmit cb ok =
      let (ret, w) = cb (deref ctx.txbuf) ctx.tx_len ctx.world in
      ((if is_zero ret then ok else pa_err_callback), record ctx { world = w })

  unfoldable pub send_by : Option (SendFn W) → Result W
  unfolding transmit
  send_by none = some (pa_err_state, ctx)
  send_by (some cb) = some (transmit cb pa_ok)

module _ {W : Type 0} (ctx : Modbus W) where
  unfoldable pub send : Result W
  unfolding send_by
  send = send_by ctx ctx.callbacks.send_cb

  -- `pa_modbus_send_raw` once the PDU is framed.
  unfoldable pub after_wrap : SendFn W → Wrapped W → ℤ × Modbus W
  unfolding transmit
  after_wrap cb (framed n ctx') = transmit (record ctx' { tx_len = n }) cb (pos n)
  after_wrap cb (refused ret) = (ret, ctx)

module _ {W : Type 0} (ctx : Modbus W) where
  unfoldable pub send_raw_by : Option (SendFn W) → List ℕ → ℕ → Result W
  unfolding after_wrap
  send_raw_by none pdu pdu_len = some (pa_err_state, ctx)
  send_raw_by (some cb) pdu pdu_len =
      if not (is_set ctx.txbuf)
      then some (pa_err_state, ctx)
      else if ltb (size_t (ctx.txbuf_size + 2 ^ 64 - pa_framer_max_overhead)) pdu_len
      then some (pa_err_buffer_full, ctx)
      else (do
        bytes ← load pdu 0 pdu_len
        buf ← store (deref ctx.txbuf) 0 bytes
        let ctx' = record ctx { txbuf = some buf }
        w ← wrap ctx' pdu_len
        some (after_wrap ctx' cb w))

module _ {W : Type 0} (ctx : Modbus W) where
  unfoldable pub send_raw : List ℕ → ℕ → Result W
  unfolding send_raw_by
  send_raw pdu pdu_len = send_raw_by ctx ctx.callbacks.send_cb pdu pdu_len
