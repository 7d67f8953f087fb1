-- ===== src/Receive/Sending.antt =====
-- src/pamodbus.c: what `pa_modbus_send_raw` hands to the send callback, over RTU.
use pamodbus.Common.{ℕ, ◌+◌, ◌-◌, ◌^◌, ◌≤◌, ◌<◌, List, ◌++◌, some, true, not}
use pamodbus.Common.{
  ◌≡◌, refl, ap, ◌∙◌, arith, length, length-drop, drop, drop-drop, deref, load, load-append, store,
  store-front, ◌>>=◌, ltb, if◌then◌else◌, is_zero, pos, size_t, Bool-cases, inl, inr,
}
use pamodbus.Crc.Reference.{IsBytes}
use pamodbus.Context.{Modbus, SendFn, Result, rtu_ops, pa_framer_max_overhead}
use pamodbus.Context.{pa_err_state, pa_err_buffer_full, pa_err_callback}
use pamodbus.Framer.Frames.{rtu_adu}
use pamodbus.Framer.Ops.{wrap, wrap-rtu_wrap}
use pamodbus.Framer.Rtu.Wrap.{rtu_wrap-adu}
use pamodbus.Receive.Accumulate.{is_set}
use pamodbus.Receive.Send.{send_raw, send_raw_by, after_wrap, transmit}

-- A context over RTU that can send: a transmit buffer of the size that is given, and an address of a byte.
pub record IsSending {W : Type 0} (ctx : Modbus W) (cb : SendFn W) : Type 0 where
  pub framed_by : ctx.framer ≡ rtu_ops
  pub registered : ctx.callbacks.send_cb ≡ some cb
  pub there : is_set ctx.txbuf ≡ true
  pub room : ctx.txbuf_size ≤ length (deref ctx.txbuf)
  pub spare : 7 ≤ ctx.txbuf_size
  pub small : ctx.txbuf_size < 2 ^ 64
  pub unit : ctx.slave < 256

module _ {W : Type 0} (ctx : Modbus W) (cb : SendFn W) (pdu : List ℕ) where
  -- The transmit buffer with the frame, and the context once the callback has it.
  abbrev pub buffer : List ℕ
  buffer = rtu_adu ctx.slave pdu ++ drop (length pdu + 3) (deref ctx.txbuf)

  abbrev pub handed_over : Result W
  handed_over =
      let (ret, w) = cb buffer (length pdu + 3) ctx.world in
      some (
        (if is_zero ret then pos (length pdu + 3) else pa_err_callback),
        record ctx { txbuf = some buffer; tx_len = length pdu + 3; world = w },
      )

module _ {W : Type 0} (ctx : Modbus W) (cb : SendFn W) (pdu post : List ℕ) (r : IsSending ctx cb)
    (bytes : IsBytes pdu) where
  -- The copy into the transmit buffer, the frame around it, and the call.
  copied :
      length pdu + 7 ≤ ctx.txbuf_size
      → (load (pdu ++ post) 0 (length pdu) >>= λ chunk. store (deref ctx.txbuf) 0 chunk >>= λ buf.
          wrap (record ctx { txbuf = some buf }) (length pdu) >>= λ w.
          some (after_wrap (record ctx { txbuf = some buf }) cb w))
        ≡ handed_over ctx cb pdu
  unfolding after_wrap transmit
  copied fits =
      let n = length pdu in
      let mem = deref ctx.txbuf in
      let ctx' = record ctx { txbuf = some (pdu ++ drop n mem) } in
      let wrapped =
        rtu_wrap-adu ctx' pdu (drop n mem) refl (omega (arith, length-drop n mem, r.room))
          (omega arith) r.unit bytes in
      ap
        (λ o. o >>= λ chunk. store mem 0 chunk >>= λ buf.
          wrap (record ctx { txbuf = some buf }) n >>= λ w.
          some (after_wrap (record ctx { txbuf = some buf }) cb w))
        (load-append pdu post)
      ∙ ap
          (λ o. o >>= λ buf. wrap (record ctx { txbuf = some buf }) n >>= λ w.
            some (after_wrap (record ctx { txbuf = some buf }) cb w))
          (store-front mem pdu (omega (arith, r.room)))
      ∙ ap (λ o. o >>= λ w. some (after_wrap ctx' cb w))
          (wrap-rtu_wrap ctx' r.framed_by n ∙ wrapped)
      ∙ rw (drop-drop 3 n mem) refl

  -- `pa_modbus_send_raw` sends the frame of the PDU: over RTU, from a context that can send, a PDU that leaves
  -- 7 bytes of the transmit buffer free is handed to the send callback as one frame, the address before it and the
  -- CRC behind it, and the length of the frame is returned, or PA_ERR_CALLBACK if the callback fails; a longer
  -- one is refused with PA_ERR_BUFFER_FULL and nothing changes.
  pub send_raw-handed_over : send_raw ctx (pdu ++ post) (length pdu) ≡ (
      if ltb (ctx.txbuf_size - 7) (length pdu)
      then some (pa_err_buffer_full, ctx)
      else handed_over ctx cb pdu)
  unfolding send_raw send_raw_by
  send_raw-handed_over =
      let n = length pdu in
      let limit : size_t (ctx.txbuf_size + 2 ^ 64 - pa_framer_max_overhead) ≡ ctx.txbuf_size - 7 =
        omega (arith, r.spare, r.small) in
      let steps = load (pdu ++ post) 0 n >>= λ chunk. store (deref ctx.txbuf) 0 chunk >>= λ buf.
      wrap (record ctx { txbuf = some buf }) n >>= λ w.
      some (after_wrap (record ctx { txbuf = some buf }) cb w) in
      ap (λ o. send_raw_by ctx o (pdu ++ post) n) r.registered
      ∙ ap
          (λ b.
            if not b
            then some (pa_err_state, ctx)
            else if ltb (size_t (ctx.txbuf_size + 2 ^ 64 - pa_framer_max_overhead)) n
            then some (pa_err_buffer_full, ctx)
            else steps)
          r.there
      ∙ ap (λ k. if ltb k n then some (pa_err_buffer_full, ctx) else steps) limit
      ∙ elim (Bool-cases (ltb (ctx.txbuf_size - 7) n)) [
        | inl e ↦ rw e refl
        | inr e ↦ let fits : n + 7 ≤ ctx.txbuf_size = ground (arith, r.spare) in rw e (copied fits)
      ]
