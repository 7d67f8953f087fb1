-- ===== src/Receive/Shortest.antt =====
-- src/pamodbus.c: what `pa_modbus_recv_raw` accepts.
use pamodbus.Common.{
  negsuc, Pointer, ℕ, ◌+◌, ◌-◌, ◌≤◌, ◌<◌, List, Option, none, some, Bool, true, false, ◌≡◌, refl,
  sym, ap, ◌∙◌, subst, arith,
}
use pamodbus.Common.{
  length, load, store, load-some, store-some, ltb, leb, ◌==◌, not, ◌||◌, if◌then◌else◌, deref, ℤ,
  ◌>>=◌,
}
use pamodbus.Context.{
  Modbus, RecvFn, TicksFn, pa_ok, pa_wait, pa_err_bad_param, pa_err_buffer_full, pa_err_timeout,
  pa_err_callback,
}
use pamodbus.Receive.Accumulate.{is_set, tick, tick_of, Append, append_rx, timed_out}
use pamodbus.Receive.Raw.{RawResult, raw_scan, raw_idle, raw_found, raw_append, raw_by, recv_raw}
use pamodbus.Receive.Safe.{IsReceiving, IsPolite, counted, reset-IsReceiving, world-IsReceiving}
use pamodbus.Receive.Arrive.{Arrives, arrived, failed, append_rx-Arrives}
use pamodbus.Receive.Trailer.{EndsInCrc, NoneFits, Scanned, hit, miss, raw_scan-Scanned}

-- Why the call takes nothing, and what it returns then. `size` is the size of the buffer, `n` what the callback
-- returned, `mem` the buffer with `pend` bytes pending, `pdu_len` the size of the caller's memory.
pub data Refusal (size : ℕ) (n : ℤ) (mem : List ℕ) (pend pdu_len : ℕ) : ℤ → Type 0 where
  no_buffer : size ≡ 0 → Refusal size n mem pend pdu_len pa_err_bad_param
  line_failed : (j : ℕ) → n ≡ negsuc j → Refusal size n mem pend pdu_len pa_err_callback
  too_long :
      (k : ℕ)
      → 4 ≤ k
      → k ≤ pend
      → NoneFits mem 4 (k - 4)
      → EndsInCrc mem k
      → pdu_len < k - 3
      → Refusal size n mem pend pdu_len pa_err_buffer_full
  overrun :
      NoneFits mem 4 (pend - 3) → size ≤ pend → Refusal size n mem pend pdu_len pa_err_buffer_full
  stale : NoneFits mem 4 (pend - 3) → Refusal size n mem pend pdu_len pa_err_timeout
  incomplete : NoneFits mem 4 (pend - 3) → Refusal size n mem pend pdu_len pa_wait

-- How the call ends that has `pend` bytes in the buffer `mem`. With PA_OK, the first `k` of them end in their CRC and
-- no shorter part of 4 bytes or more does, and what is between the address and the CRC is in the caller's memory;
-- the buffer is empty then. With any other code, the caller's memory and length are as before, and there is a reason.
pub data RawDone {W : Type 0} (size : ℕ) (n : ℤ) (mem : List ℕ) (pend : ℕ) (pdu_mem : List ℕ)
    (pdu_len : ℕ) : Option (RawResult W) → Type 0 where
  taken :
      {ctx : Modbus W} {out : List ℕ} (k : ℕ) (bytes : List ℕ)
      → IsReceiving ctx
      → ctx.rx_len ≡ 0
      → 4 ≤ k
      → k ≤ pend
      → NoneFits mem 4 (k - 4)
      → EndsInCrc mem k
      → k - 3 ≤ pdu_len
      → load mem 1 (k - 3) ≡ some bytes
      → store pdu_mem 0 bytes ≡ some out
      → RawDone size n mem pend pdu_mem pdu_len
          (some (record { ret = pa_ok; ctx = ctx; pdu_buf = some out; pdu_len = some (k - 3) }))
  untaken :
      {ret : ℤ} {ctx : Modbus W}
      → Refusal size n mem pend pdu_len ret
      → IsReceiving ctx
      → RawDone size n mem pend pdu_mem pdu_len
          (some (record { ret = ret; ctx = ctx; pdu_buf = some pdu_mem; pdu_len = some pdu_len }))

module _ {W : Type 0} (size : ℕ) (n : ℤ) (mem : List ℕ) (pend : ℕ) (pdu_mem : List ℕ) (pdu_len : ℕ)
    (room : pdu_len ≤ length pdu_mem) where
  RawDone-if :
      (b : Bool) {x y : Option (RawResult W)}
      → (b ≡ true → RawDone size n mem pend pdu_mem pdu_len x)
      → (b ≡ false → RawDone size n mem pend pdu_mem pdu_len y)
      → RawDone size n mem pend pdu_mem pdu_len (if b then x else y)
  RawDone-if true f g = f refl
  RawDone-if false f g = g refl

  RawDone-bind :
      {A : Type 0} {o : Option A} (f : A → Option (RawResult W)) {a : A}
      → o ≡ some a
      → RawDone size n mem pend pdu_mem pdu_len (f a)
      → RawDone size n mem pend pdu_mem pdu_len (o >>= f)
  RawDone-bind f e r = rw e r

  raw_idle-RawDone :
      (now : ℕ) (ctx : Modbus W)
      → IsReceiving ctx
      → ctx.rxbuf_size ≡ size
      → ctx.rx_len ≡ pend
      → NoneFits mem 4 (pend - 3)
      → RawDone size n mem pend pdu_mem pdu_len (raw_idle (some pdu_mem) pdu_len now ctx)
  unfolding raw_idle
  raw_idle-RawDone now ctx r sized count none_fits =
      RawDone-if (leb ctx.rxbuf_size ctx.rx_len)
        (λ p. untaken (overrun none_fits (ground arith)) (reset-IsReceiving ctx r))
        (λ p.
          RawDone-if (timed_out ctx now) (λ p. untaken (stale none_fits) (reset-IsReceiving ctx r))
            (λ p. untaken (incomplete none_fits) r))

  raw_found-RawDone :
      (now : ℕ) (ctx : Modbus W) (o : Option ℕ)
      → IsReceiving ctx
      → ctx.rxbuf_size ≡ size
      → ctx.rx_len ≡ pend
      → deref ctx.rxbuf ≡ mem
      → pend ≤ length mem
      → 4 ≤ pend
      → Scanned mem 4 (pend - 3) o
      → RawDone size n mem pend pdu_mem pdu_len (raw_found (some pdu_mem) pdu_len now ctx o)
  unfolding raw_found
  raw_found-RawDone now ctx o r sized count same there long (miss before) =
      raw_idle-RawDone now ctx r sized count before
  raw_found-RawDone now ctx o r sized count same there long (hit k lt before fits) =
      let len = 4 + k in
      let rest : k ≡ len - 4 = omega arith in
      let shorter = subst (NoneFits mem 4) rest before in
      RawDone-if (ltb pdu_len (len - 3))
        (λ p. untaken (too_long len (omega arith) (omega arith) shorter fits (ground arith)) r)
        (λ p.
          let small : len - 3 ≤ pdu_len = ground arith in
          let (bytes, e₁, l) = load-some mem 1 (len - 3) (omega arith) in
          let (out, e₂, kept) = store-some pdu_mem 0 bytes (omega arith) in
          RawDone-bind _ (ap (λ m. load m 1 (len - 3)) same ∙ e₁) (
            RawDone-bind _ e₂ (
              taken len bytes (reset-IsReceiving ctx r) refl (omega arith) (omega arith) shorter
                fits small e₁ e₂)))

  arrived-RawDone :
      {a : Append W} (now : ℕ)
      → Arrives size n mem pend a
      → RawDone size n mem pend pdu_mem pdu_len (raw_append (some pdu_mem) pdu_len now a)
  unfolding raw_append
  arrived-RawDone now (failed j e r) = untaken (line_failed j e) r
  arrived-RawDone now (arrived {ctx} r sized same count) =
      RawDone-if (leb 4 ctx.rx_len)
        (λ p.
          let long : 4 ≤ pend = ground arith in
          let there : pend ≤ length mem = omega (arith, ap length same, r.pending, r.room) in
          let (o, e, scanned) = raw_scan-Scanned mem 4 (pend - 3) (omega arith) (omega arith) in
          RawDone-bind _
            (ap (λ m. raw_scan m 4 (ctx.rx_len - 3)) same
              ∙ ap (λ k. raw_scan mem 4 (k - 3)) count
              ∙ e)
            (raw_found-RawDone now ctx o r sized count same there long scanned))
        (λ p.
          let short : pend - 3 ≡ 0 = ground arith in
          raw_idle-RawDone now ctx r sized count (subst (NoneFits mem 4) (sym short) tt))

-- The world in which the receive callback is called: the clock, if there is one, has been read.
abbrev pub clocked : {W : Type 0} → Modbus W → Option (TicksFn W) → Modbus W
clocked ctx none = ctx
clocked ctx (some ticks) = record ctx { world = (ticks ctx.world).1 }

-- What the receive callback gives, when it is asked for as many bytes as there is room for.
abbrev pub polled : {W : Type 0} → Modbus W → RecvFn W → ℤ × List ℕ × W
polled ctx cb = cb (ctx.rxbuf_size - ctx.rx_len) (clocked ctx ctx.callbacks.ticks_cb).world

polled-Arrives :
    {W : Type 0} (ctx : Modbus W) (r : IsReceiving ctx) (cb : RecvFn W)
    → IsPolite cb
    → (o : Option (TicksFn W))
    → (mem : List ℕ) × (a : Append W) × (store
          (deref ctx.rxbuf)
          ctx.rx_len
          (cb (ctx.rxbuf_size - ctx.rx_len) (clocked ctx o).world).1
        ≡ some mem)
      × (append_rx (tick_of ctx o).1 cb (tick_of ctx o).0 ≡ some a)
      × Arrives ctx.rxbuf_size
          (cb (ctx.rxbuf_size - ctx.rx_len) (clocked ctx o).world).0
          mem
          (ctx.rx_len + counted (cb (ctx.rxbuf_size - ctx.rx_len) (clocked ctx o).world).0)
          a
unfolding tick_of
polled-Arrives ctx r cb polite none = append_rx-Arrives ctx r cb 0 polite
polled-Arrives ctx r cb polite (some ticks) =
    let (now, w) = ticks ctx.world in
    append_rx-Arrives (record ctx { world = w }) (world-IsReceiving ctx r w) cb now polite

-- The parameters are refused only if there is no buffer.
without_buffer :
    (p : Pointer) (size : ℕ)
    → (not (is_set p) || size == 0 || false) ≡ true
    → size ≤ length (deref p)
    → size ≡ 0
without_buffer none size e room = omega arith
without_buffer (some mem) size e room = ground arith

-- The raw receiver is safe and exact: from a context over RTU whose buffer has the size that is given and the
-- pending bytes in it, with a receive callback that gives at most the bytes that are asked for and counts no
-- more than it gives, and with memory of the caller for `pdu_len` bytes, `pa_modbus_recv_raw` returns without an
-- access outside an array and leaves such a context. If it returns PA_OK, it has taken the shortest part of the
-- pending bytes, those from before with those of this call behind them, of 4 bytes or more, that ends in its own
-- CRC, and the caller has what is between address and CRC, at most `pdu_len` bytes. If not, the caller's memory and
-- length are as before, and one of these holds: the buffer has the size 0 (PA_ERR_BAD_PARAM); the callback reported an
-- error (PA_ERR_CALLBACK); there is such a shortest part, too long for the caller (PA_ERR_BUFFER_FULL); or there is
-- none, and the code is PA_ERR_TIMEOUT, PA_WAIT, or, only with the buffer full, PA_ERR_BUFFER_FULL.
pub recv_raw-RawDone :
    {W : Type 0} (ctx : Modbus W) (cb : RecvFn W) (pdu_mem : List ℕ) (pdu_len : ℕ)
    → IsReceiving ctx
    → ctx.callbacks.recv_cb ≡ some cb
    → IsPolite cb
    → pdu_len ≤ length pdu_mem
    → (mem : List ℕ) × (store (deref ctx.rxbuf) ctx.rx_len (polled ctx cb).1 ≡ some mem)
      × RawDone ctx.rxbuf_size
          (polled ctx cb).0
          mem
          (ctx.rx_len + counted (polled ctx cb).0)
          pdu_mem
          pdu_len
          (recv_raw ctx (some pdu_mem) (some pdu_len))
unfolding recv_raw raw_by tick
recv_raw-RawDone ctx cb pdu_mem pdu_len r registered polite room =
    let size = ctx.rxbuf_size in
    let n = (polled ctx cb).0 in
    let pend = ctx.rx_len + counted n in
    let now = (tick_of ctx ctx.callbacks.ticks_cb).0 in
    let (mem, a, stored, e, arrives) = polled-Arrives ctx r cb polite ctx.callbacks.ticks_cb in
    (
      mem,
      stored,
      subst
          (λ o.
            RawDone size n mem pend pdu_mem pdu_len (raw_by ctx (some pdu_mem) o (some pdu_len)))
          (sym registered)
          (RawDone-if size n mem pend pdu_mem pdu_len room
            (not (is_set ctx.rxbuf) || ctx.rxbuf_size == 0 || not (is_set (some pdu_mem)))
            (λ p. untaken (no_buffer (without_buffer ctx.rxbuf size p r.room)) r)
            (λ p.
              RawDone-bind size n mem pend pdu_mem pdu_len room _ e
                (arrived-RawDone size n mem pend pdu_mem pdu_len room now arrives))),
    )
