-- ===== src/Pdu/Respond/Written.antt =====
-- What `pa_modbus_slave_respond` answers to a write of one register (FC 06), over RTU.
use pamodbus.Common.{ℕ, ◌^◌, ◌<◌, List, ◌∷◌, some, Option}
use pamodbus.Common.{◌≡◌, refl, arith, ap, ◌∙◌, pos, deref, get_elem?, ◌>>=◌, switch}
use pamodbus.Context.{Modbus, WriteOneFn, pa_err_protocol}
use pamodbus.Pdu.Build.Payload.{fixed_pdu, write_fixed}
use pamodbus.Pdu.Build.Sent.{IsReady, sent, finish_with-sent}
use pamodbus.Pdu.Respond.{slave_respond, send_reply, respond_cases}
use pamodbus.Pdu.Respond.Answer.{Reply, early, after_write_one, built_in}
use pamodbus.Pdu.Respond.Write.{respond_write_register, echo}

-- The callback is registered, and takes the value.
after_write_one-takes :
    {W : Type 0} (ctx : Modbus W) (o : Option (WriteOneFn W)) (cb : WriteOneFn W) (addr v : ℕ)
    (k : Modbus W → Option (Reply W)) {w : W}
    → o ≡ some cb
    → cb addr v ctx.world ≡ (pos 0, w)
    → after_write_one ctx o addr v k ≡ k (record ctx { world = w })
unfolding after_write_one
after_write_one-takes ctx o cb addr v k registered takes =
    ap (λ o. after_write_one ctx o addr v k) registered ∙ rw takes refl

module _ {W : Type 0} (ctx : Modbus W) (cb : WriteOneFn W) (v : ℕ) (rest : List ℕ) (w : W)
    (fc : ctx.last_function ≡ 6) (holds : ctx.slave_reg_data ≡ v ∷ rest)
    (addr : ctx.slave_addr < 2 ^ 16) (word : v < 2 ^ 16)
    (registered : ctx.callbacks.write_single_register_cb ≡ some cb)
    (takes : cb ctx.slave_addr v ctx.world ≡ (pos 0, w)) (ready : IsReady ctx 8) where
  -- The slave hands the register to its callback, and leaves the frame of the echo.
  pub slave_respond-register :
      slave_respond ctx ≡ sent (record ctx { world = w }) (fixed_pdu 6 ctx.slave_addr v)
  unfolding slave_respond respond_write_register echo send_reply
  slave_respond-register =
      let mem = deref ctx.txbuf in
      let ctx' = record ctx { world = w } in
      let enough : IsReady ctx' 8 = record {
        framed = ready.framed;
        room = ready.room;
        size = ready.size;
        unit = ready.unit;
      } in
      ap (λ f. switch f (respond_cases ctx f) (some (early pa_err_protocol ctx)) >>= send_reply) fc
      ∙ ap
          (λ d.
            (get_elem? d 0 >>= λ value.
            after_write_one ctx ctx.callbacks.write_single_register_cb ctx.slave_addr value
              λ ctx'. echo ctx' 6 ctx.slave_addr value)
            >>= send_reply)
          holds
      ∙ ap (λ o. o >>= send_reply)
          (after_write_one-takes ctx ctx.callbacks.write_single_register_cb cb ctx.slave_addr v
              (λ ctx'. echo ctx' 6 ctx.slave_addr v) registered takes
            ∙ write_fixed 6 ctx.slave_addr v mem (λ buf. built_in ctx' buf 5)
                (omega (arith, ready.room)) addr word)
      ∙ finish_with-sent ctx' (fixed_pdu 6 ctx.slave_addr v) enough (omega arith)
