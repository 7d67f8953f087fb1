-- ===== src/Receive/Raw.antt =====
-- src/pamodbus.c: `pa_modbus_recv_raw`.
use pamodbus.Common.{
  ℕ, zero, suc, ◌+◌, ◌-◌, ◌*◌, ◌^◌, List, Option, none, some, ◌||◌, not, Bool, true, false,
}
use pamodbus.Common.{
  ℤ, ltb, leb, ◌==◌, if◌then◌else◌, u16, bit_or, Pointer, deref, get_elem?, load, store, ◌>>=◌,
}
use pamodbus.Crc.{pa_crc16}
use pamodbus.Context.{Modbus, RecvFn, pa_ok, pa_wait, pa_err_bad_param}
use pamodbus.Context.{pa_err_buffer_full, pa_err_timeout, pa_err_callback, pa_err_state}
use pamodbus.Receive.Accumulate.{is_set, tick, Append, appended, broken, append_rx, timed_out}

-- The code, the context, and what `pdu_buf` and `pdu_len` point to.
pub record RawResult (W : Type 0) : Type 0 where
  pub ret : ℤ
  pub ctx : Modbus W
  pub pdu_buf : Pointer
  pub pdu_len : Option ℕ

-- The CRC behind the first `frame_len - 2` bytes is theirs.
unfoldable pub crc_fits : List ℕ → ℕ → Option Bool
crc_fits rxbuf frame_len = do
  lo ← get_elem? rxbuf (frame_len - 2)
  hi ← get_elem? rxbuf (frame_len - 1)
  crc ← pa_crc16 rxbuf (frame_len - 2)
  some (crc == u16 (bit_or (hi * 2 ^ 8) lo))

-- The loop over the lengths from `frame_len` on, with `left` rounds left.
unfoldable pub raw_scan : List ℕ → ℕ → ℕ → Option (Option ℕ)
unfolding crc_fits
raw_scan rxbuf frame_len zero = some none
raw_scan rxbuf frame_len (suc left) = crc_fits rxbuf frame_len >>= λ fits. elim fits [
  | true ↦ some (some frame_len)
  | false ↦ raw_scan rxbuf (frame_len + 1) left
]

module _ {W : Type 0} (pdu_buf : Pointer) (pdu_len : ℕ) where
  abbrev result : ℤ → Modbus W → Option (RawResult W)
  result code c = some (record { ret = code; ctx = c; pdu_buf = pdu_buf; pdu_len = some pdu_len })

  -- The checks behind the scan.
  unfoldable pub raw_idle : ℕ → Modbus W → Option (RawResult W)
  unfolding timed_out
  raw_idle now ctx =
      if leb ctx.rxbuf_size ctx.rx_len
      then result pa_err_buffer_full (record ctx { rx_len = 0 })
      else if timed_out ctx now
      then result pa_err_timeout (record ctx { rx_len = 0 })
      else result pa_wait ctx

  unfoldable pub raw_found : ℕ → Modbus W → Option ℕ → Option (RawResult W)
  unfolding raw_idle
  raw_found now ctx none = raw_idle now ctx
  raw_found now ctx (some frame_len) =
      let pdu_len_out = frame_len - 3 in
      if ltb pdu_len pdu_len_out then result pa_err_buffer_full ctx else (do
        bytes ← load (deref ctx.rxbuf) 1 pdu_len_out
        buf ← store (deref pdu_buf) 0 bytes
        some (record {
          ret = pa_ok;
          ctx = record ctx { rx_len = 0 };
          pdu_buf = some buf;
          pdu_len = some pdu_len_out;
        }))

  -- The lengths 4 to `rx_len` are tried.
  unfoldable pub raw_append : ℕ → Append W → Option (RawResult W)
  unfolding raw_scan raw_found raw_idle
  raw_append now (broken ctx) = result pa_err_callback ctx
  raw_append now (appended ctx) =
      if leb 4 ctx.rx_len
      then (raw_scan (deref ctx.rxbuf) 4 (ctx.rx_len - 3) >>= λ f. raw_found now ctx f)
      else raw_idle now ctx

module _ {W : Type 0} (ctx : Modbus W) (pdu_buf : Pointer) where
  unfoldable pub raw_by : Option (RecvFn W) → Option ℕ → Option (RawResult W)
  unfolding tick append_rx raw_append
  raw_by none pdu_len =
      some (record { ret = pa_err_state; ctx = ctx; pdu_buf = pdu_buf; pdu_len = pdu_len })
  raw_by (some cb) none =
      some (record { ret = pa_err_bad_param; ctx = ctx; pdu_buf = pdu_buf; pdu_len = none })
  raw_by (some cb) (some pdu_len) =
      if not (is_set ctx.rxbuf) || ctx.rxbuf_size == 0 || not (is_set pdu_buf)
      then result pdu_buf pdu_len pa_err_bad_param ctx
      else let (now, ctx') = tick ctx in
        do a ← append_rx ctx' cb now; raw_append pdu_buf pdu_len now a

module _ {W : Type 0} (ctx : Modbus W) where
  unfoldable pub recv_raw : Pointer → Option ℕ → Option (RawResult W)
  unfolding raw_by
  recv_raw pdu_buf pdu_len = raw_by ctx pdu_buf ctx.callbacks.recv_cb pdu_len
