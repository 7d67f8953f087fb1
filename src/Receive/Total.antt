-- ===== src/Receive/Total.antt =====
-- `pa_modbus_recv` (src/pamodbus.c) over RTU, as a whole.
use pamodbus.Common.{ℤ, ℕ, List, ◌+◌, some, not, ◌||◌}
use pamodbus.Common.{◌≡◌, sym, arith, ap, subst}
use pamodbus.Common.{ltb, leb, ◌==◌, ◌>>=◌}
use pamodbus.Context.{Modbus, RecvFn}
use pamodbus.Receive.Accumulate.{is_set, tick_of, tick, Append, appended, broken, append_rx}
use pamodbus.Receive.Arrive.{Arrives, arrived, failed, append_rx-Arrives, tick_of-IsReceiving}
use pamodbus.Receive.{Found, frame, wait, scan_frame, rx_mode, on_found, on_append, recv_by, recv}
use pamodbus.Receive.Safe.{
  IsReceiving, Receives, receives, Receives-if, Receives-bind, kept, Fits, IsPolite, scan_from-Fits,
  reset-IsReceiving, same-IsReceiving, idle-Receives, consume-Receives, feed_by-Keeps,
}

module _ {W : Type 0} (ctx : Modbus W) (r : IsReceiving ctx) where
  on_found-Receives : (now : ℕ) (f : Found) → Fits ctx.rx_len f → Receives (on_found ctx now f)
  unfolding on_found
  on_found-Receives now (frame start len) h =
      let (keep, same) = feed_by-Keeps ctx r (rx_mode ctx) start len h in
      let (ret, c, e, v, s) = kept keep same in
      let n : c.rx_len ≡ ctx.rx_len = ap (λ s. s.rx_len) s in
      Receives-bind _ e
        (consume-Receives c (same-IsReceiving ctx r c v s) now (start + len) ret (omega arith))
  on_found-Receives now wait h =
      Receives-if (leb ctx.rxbuf_size ctx.rx_len) (λ p. receives (reset-IsReceiving ctx r))
        (λ p. idle-Receives ctx r now)

  scanned-Receives : (now : ℕ) → Receives (on_append now (appended ctx))
  unfolding on_append scan_frame
  scanned-Receives now =
      let (f, e, fits) = scan_from-Fits ctx r 0 ctx.rx_len (omega arith) in
      Receives-if (ltb 0 ctx.rx_len) (λ p. Receives-bind _ e (on_found-Receives now f fits))
        (λ p. idle-Receives ctx r now)

  broken-Receives : (now : ℕ) → Receives (on_append now (broken ctx))
  unfolding on_append
  broken-Receives now = receives r

arrived-Receives :
    {W : Type 0} {size : ℕ} {n : ℤ} {mem : List ℕ} {pend : ℕ} {a : Append W} (now : ℕ)
    → Arrives size n mem pend a
    → Receives (on_append now a)
arrived-Receives now (arrived {ctx} r z m k) = scanned-Receives ctx r now
arrived-Receives now (failed {ctx} j e r) = broken-Receives ctx r now

append-Receives :
    {W : Type 0} (ctx : Modbus W) (cb : RecvFn W) (now : ℕ)
    → IsReceiving ctx
    → IsPolite cb
    → Receives (append_rx ctx cb now >>= λ a. on_append now a)
append-Receives ctx cb now r polite =
    let (mem, a, stored, e, arrives) = append_rx-Arrives ctx r cb now polite in
    Receives-bind (on_append now) e (arrived-Receives now arrives)

-- The receiver over RTU makes no access outside its buffer, whatever bytes arrive, in both roles: from
-- a valid context whose receive buffer has the size that is given and the pending bytes in it, with a
-- receive callback that gives at most the bytes that are asked for and counts no more than it gives,
-- `pa_modbus_recv` returns, and leaves such a context.
pub recv-Receives :
    {W : Type 0} (ctx : Modbus W) (cb : RecvFn W)
    → IsReceiving ctx
    → ctx.callbacks.recv_cb ≡ some cb
    → IsPolite cb
    → Receives (recv ctx)
unfolding recv recv_by tick
recv-Receives ctx cb r registered polite =
    subst (λ o. Receives (recv_by ctx o)) (sym registered)
      (Receives-if (not (is_set ctx.rxbuf) || ctx.rxbuf_size == 0) (λ p. receives r)
        λ p.
          append-Receives (tick_of ctx ctx.callbacks.ticks_cb).1 cb
            (tick_of ctx ctx.callbacks.ticks_cb).0
            (tick_of-IsReceiving ctx r ctx.callbacks.ticks_cb) polite)
