-- ===== src/Receive.antt =====
-- src/pamodbus.c: the receiver `pa_modbus_recv`, which collects bytes, finds a frame among them and
-- hands it to the parser. `pa_modbus_recv_raw`, and the sending side, are children.
pub mod Accumulate
pub mod Raw
pub mod Send
pub mod Safe
pub mod Arrive
pub mod Total
pub mod Trailer
pub mod Shortest
pub mod Polls
pub mod Sending
pub mod First
mod Tests
use pamodbus.Common.{ℕ, zero, suc, ◌+◌, ◌-◌, ◌%◌, ◌^◌, List, Option, none, some, ◌||◌, not}
use pamodbus.Common.{ℤ, ltb, leb, ◌==◌, if◌then◌else◌, size_t, drop, deref, load, store, ◌>>=◌}
use pamodbus.Context.{Modbus, RecvFn, Result, Mode, master, slave_mode, FramerType, rtu, tcp}
use pamodbus.Context.{pa_wait, pa_err_buffer_full, pa_err_timeout, pa_err_callback, pa_err_state}
use pamodbus.Framer.Outcome.{Unwrapped, pdu_at, stopped}
use pamodbus.Framer.Ops.{unwrap}
use pamodbus.Pdu.Feed.{master_feed, slave_feed}
use Accumulate.{is_set, tick, Append, appended, broken, append_rx, timed_out}

-- The two bytes of CRC that the RTU frame has behind the PDU.
unfoldable pub trailer_len : FramerType → ℕ
trailer_len rtu = 2
trailer_len tcp = 0

-- Where a frame starts, and its length; or PA_WAIT.
pub data Found : Type 0 where
  frame : ℕ → ℕ → Found
  wait : Found

module _ {W : Type 0} (ctx : Modbus W) where
  -- `pa_rx_scan_frame` from offset `off` on, with `left` offsets left.
  unfoldable pub scan_from : ℕ → ℕ → Option Found
  unfolding trailer_len
  scan_from off zero = some wait
  scan_from off (suc left) = unwrap ctx (drop off (deref ctx.rxbuf)) (ctx.rx_len - off) >>= λ u.
      elim u [
        | pdu_at start n ↦ some (frame off (size_t (start + n + trailer_len ctx.framer_type)))
        | stopped ret ↦ scan_from (off + 1) left
      ]

  unfoldable pub rx_mode : Mode
  rx_mode =
      if not (ctx.mode_set == 0)
      then ctx.mode
      else if is_set ctx.callbacks.write_single_coil_cb
          || is_set ctx.callbacks.write_single_register_cb
          || is_set ctx.callbacks.write_multiple_coils_cb
          || is_set ctx.callbacks.write_multiple_registers_cb
      then slave_mode
      else master

  unfoldable pub feed_by : Mode → List ℕ → ℕ → Result W
  feed_by slave_mode bytes len = slave_feed ctx bytes len
  feed_by master bytes len = master_feed ctx bytes len

  -- Part 3: the idle timeout.
  unfoldable pub idle : ℕ → Result W
  unfolding timed_out
  idle now =
      if timed_out ctx now
      then some (pa_err_timeout, record ctx { rx_len = 0 })
      else some (pa_wait, ctx)

  -- Drop the `consumed` bytes at the front, and keep what is behind them.
  unfoldable pub consume : ℕ → ℕ → ℤ → Result W
  consume now consumed ret =
      let remaining = size_t (ctx.rx_len + 2 ^ 64 - consumed) in
      if ltb 0 remaining
      then (do
        bytes ← load (deref ctx.rxbuf) consumed remaining
        buf ← store (deref ctx.rxbuf) 0 bytes
        some (ret, record ctx { rxbuf = some buf; last_rx_tick = now; rx_len = remaining }))
      else some (ret, record ctx { rx_len = remaining })

module _ {W : Type 0} (ctx : Modbus W) where
  unfoldable pub scan_frame : Option Found
  unfolding scan_from
  scan_frame = scan_from ctx 0 ctx.rx_len

  -- Part 2, once the scan is done.
  unfoldable pub on_found : ℕ → Found → Result W
  unfolding feed_by consume idle rx_mode
  on_found now (frame start len) =
      feed_by ctx (rx_mode ctx) (drop start (deref ctx.rxbuf)) len >>= λ (ret, ctx').
      consume ctx' now (start + len) ret
  on_found now wait =
      if leb ctx.rxbuf_size ctx.rx_len
      then some (pa_err_buffer_full, record ctx { rx_len = 0 })
      else idle ctx now

-- Part 2, from the append on.
unfoldable pub on_append : {W : Type 0} → ℕ → Append W → Result W
unfolding scan_frame on_found idle
on_append now (broken ctx) = some (pa_err_callback, ctx)
on_append now (appended ctx) =
    if ltb 0 ctx.rx_len then (scan_frame ctx >>= λ f. on_found ctx now f) else idle ctx now

module _ {W : Type 0} (ctx : Modbus W) where
  unfoldable pub recv_by : Option (RecvFn W) → Result W
  unfolding tick append_rx on_append
  recv_by none = some (pa_err_state, ctx)
  recv_by (some cb) =
      if not (is_set ctx.rxbuf) || ctx.rxbuf_size == 0
      then some (pa_err_state, ctx)
      else let (now, ctx') = tick ctx in do a ← append_rx ctx' cb now; on_append now a

module _ {W : Type 0} (ctx : Modbus W) where
  unfoldable pub recv : Result W
  unfolding recv_by
  recv = recv_by ctx ctx.callbacks.recv_cb
