-- ===== src/Receive/Accumulate.antt =====
-- src/pamodbus.c: what `pa_modbus_recv` and `pa_modbus_recv_raw` share: the clock, the append of what
-- is available, the idle timeout.
use pamodbus.Common.{ℕ, zero, suc, ◌+◌, ◌-◌, ◌^◌, Option, none, some, Bool, true, false, ◌&&◌}
use pamodbus.Common.{ℤ, pos, negsuc, ltb, leb, size_t, u32, deref, store, ◌>>=◌}
use pamodbus.Context.{Modbus, RecvFn, TicksFn}

-- A pointer is not null.
abbrev pub is_set {ℓ} : {A : Type ℓ} → Option A → Bool
is_set none = false
is_set (some a) = true

-- `recv_cb` has run: its bytes are in the buffer and counted, or it reported an error.
pub data Append (W : Type 0) : Type 0 where
  appended : Modbus W → Append W
  broken : Modbus W → Append W

module _ {W : Type 0} (ctx : Modbus W) where
  unfoldable pub tick_of : Option (TicksFn W) → ℕ × Modbus W
  tick_of none = (0, ctx)
  tick_of (some cb) = let (now, w) = cb ctx.world in (now, record ctx { world = w })

  unfoldable pub tick : ℕ × Modbus W
  unfolding tick_of
  tick = tick_of ctx.callbacks.ticks_cb

  -- `n` is what the callback returned, `now` the time of the call.
  unfoldable pub count_rx : ℕ → ℤ → Append W
  count_rx now (negsuc k) = broken ctx
  count_rx now (pos zero) = appended ctx
  count_rx now (pos (suc k)) =
      appended (record ctx { rx_len = size_t (ctx.rx_len + suc k); last_rx_tick = now })

  -- `(uint32_t)(now - last_rx_tick) >= idle_timeout_ticks`, with a clock and bytes pending.
  unfoldable pub timed_out : ℕ → Bool
  timed_out now =
      is_set ctx.callbacks.ticks_cb
      && ltb 0 ctx.rx_len
      && leb ctx.idle_timeout_ticks (u32 (now + 2 ^ 32 - ctx.last_rx_tick))

module _ {W : Type 0} (ctx : Modbus W) where
  -- The callback stores its bytes from `rxbuf + rx_len` on; storing more than the buffer holds is a
  -- fault.
  unfoldable pub append_rx : RecvFn W → ℕ → Option (Append W)
  unfolding count_rx
  append_rx cb now =
      let (n, bytes, w) = cb (size_t (ctx.rxbuf_size + 2 ^ 64 - ctx.rx_len)) ctx.world in
      do
        buf ← store (deref ctx.rxbuf) ctx.rx_len bytes
        some (count_rx (record ctx { rxbuf = some buf; world = w }) now n)
