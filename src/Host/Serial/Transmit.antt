-- ===== src/Host/Serial/Transmit.antt =====
-- host/pa_serial.c: `ser_send` as the send callback of src/pamodbus.c.
use pamodbus.Common.{
  ℕ, ◌^◌, ◌≤◌, ◌<◌, List, ◌++◌, take, length, length-take, deref, Option, none, some, ◌≡◌, sym,
  subst, arith, ℤ, negsuc, is_zero, if◌then◌else◌,
}
use pamodbus.Context.{Modbus, Result, pa_ok, pa_err_callback}
use pamodbus.Receive.Send.{send, send_by, transmit}
use pamodbus.Host.Posix.{Posix}
use pamodbus.Host.Serial.{Serial, send_fn, build_port}
use pamodbus.Host.Serial.Sent.{IsWriter, Sent, all_sent, part_sent, ser_send-Sent}

-- The frame in the transmit buffer is on the wire, or a proper first part of it and an error is reported.
pub data Delivered {W : Type 0} (wire : W → List ℕ) (ctx : Modbus W) : Result W → Type 0 where
  delivered :
      {w : W}
      → wire w ≡ wire ctx.world ++ take ctx.tx_len (deref ctx.txbuf)
      → Delivered wire ctx (some (pa_ok, record ctx { world = w }))
  cut_short :
      {w : W} (k : ℕ)
      → k < ctx.tx_len
      → wire w ≡ wire ctx.world ++ take k (take ctx.tx_len (deref ctx.txbuf))
      → Delivered wire ctx (some (pa_err_callback, record ctx { world = w }))

module _ {W T : Type 0} (os : Posix W T) (wire : W → List ℕ) (ctx : Modbus W) where
  -- What `pa_modbus_send` makes of what `ser_send` returns.
  abbrev reported : ℤ × W → Result W
  reported r = some ((if is_zero r.0 then pa_ok else pa_err_callback), record ctx { world = r.1 })

  Sent-Delivered :
      (o : Option (ℤ × W))
      → ctx.tx_len ≤ length (deref ctx.txbuf)
      → Sent os wire (wire ctx.world) (take ctx.tx_len (deref ctx.txbuf)) o
      → Delivered wire ctx (reported (elim o [ some r ↦ r | none ↦ (negsuc 0, ctx.world) ]))
  Sent-Delivered o inside (all_sent on_wire) = delivered on_wire
  Sent-Delivered o inside (part_sent k short on_wire failed) =
      cut_short k (omega (arith, length-take ctx.tx_len (deref ctx.txbuf))) on_wire

-- `pa_modbus_send` over the serial port puts the frame on the wire: with the send function of the port registered, on a
-- device that behaves as `write` is documented, and with `tx_len` bytes in the transmit buffer, it returns. With
-- PA_OK, exactly these bytes are behind what was on the wire; if not, the code is PA_ERR_CALLBACK, and a proper first
-- part of them is there.
pub send-build_port :
    {W T : Type 0} (os : Posix W T) (wire : W → List ℕ) (calls : W → ℕ) (h : Serial)
    (ctx : Modbus W)
    → IsWriter os h.fd wire calls
    → ctx.callbacks.send_cb ≡ (build_port os calls h).send
    → ctx.tx_len ≤ length (deref ctx.txbuf)
    → ctx.tx_len < 2 ^ 64
    → Delivered wire ctx (send ctx)
unfolding send send_by transmit build_port send_fn
send-build_port os wire calls h ctx writer registered inside small =
    subst (λ o. Delivered wire ctx (send_by ctx o)) (sym registered)
      (Sent-Delivered os wire ctx _ inside
        (ser_send-Sent os wire calls h (deref ctx.txbuf) ctx.tx_len ctx.world writer inside small))
