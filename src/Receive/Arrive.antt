-- ===== src/Receive/Arrive.antt =====
-- src/pamodbus.c: the append of what is available, over RTU and with the bounds of the receive buffer.
use pamodbus.Common.{ℕ, zero, suc, ◌+◌, ◌-◌, ◌^◌, ◌≤◌, List, Option, none, some}
use pamodbus.Common.{◌≡◌, refl, arith, deref, store, store-some, ℤ, pos, negsuc, size_t}
use pamodbus.Context.{Modbus, RecvFn, TicksFn}
use pamodbus.Receive.Accumulate.{tick_of, Append, appended, broken, count_rx, append_rx}
use pamodbus.Receive.Safe.{IsReceiving, counted, IsPolite, world-IsReceiving}

-- The buffer of such a context holds `mem` with `pend` bytes pending, or the callback failed
-- in one, where `n` is what it returned.
pub data Arrives {W : Type 0} (size : ℕ) (n : ℤ) (mem : List ℕ) (pend : ℕ) : Append W → Type 0 where
  arrived :
      {ctx : Modbus W}
      → IsReceiving ctx
      → ctx.rxbuf_size ≡ size
      → deref ctx.rxbuf ≡ mem
      → ctx.rx_len ≡ pend
      → Arrives size n mem pend (appended ctx)
  failed :
      {ctx : Modbus W} (j : ℕ)
      → n ≡ negsuc j
      → IsReceiving ctx
      → Arrives size n mem pend (broken ctx)

module _ {W : Type 0} (ctx : Modbus W) (r : IsReceiving ctx) where
  count_rx-Arrives :
      (now : ℕ) (n : ℤ)
      → ctx.rx_len + counted n ≤ ctx.rxbuf_size
      → Arrives ctx.rxbuf_size n (deref ctx.rxbuf) (ctx.rx_len + counted n) (count_rx ctx now n)
  unfolding count_rx
  count_rx-Arrives now (negsuc j) h = failed j refl r
  count_rx-Arrives now (pos zero) h = arrived r refl refl (omega arith)
  count_rx-Arrives now (pos (suc j)) h =
      let v = r.valid in
      arrived
        (record {
          valid = omega arith;
          framed = r.framed;
          framed_type = r.framed_type;
          room = r.room;
          pending = omega (arith, r.small);
          small = r.small;
        })
        refl refl (omega (arith, r.small))

-- What the callback gives, when it is asked for as many bytes as there is room for.
abbrev reply : {W : Type 0} → Modbus W → RecvFn W → ℤ × List ℕ × W
reply ctx cb = cb (ctx.rxbuf_size - ctx.rx_len) ctx.world

append_rx-stored :
    {W : Type 0} (ctx : Modbus W) (cb : RecvFn W) (now max : ℕ) (buf : List ℕ)
    → size_t (ctx.rxbuf_size + 2 ^ 64 - ctx.rx_len) ≡ max
    → store (deref ctx.rxbuf) ctx.rx_len (cb max ctx.world).1 ≡ some buf
    → append_rx ctx cb now
      ≡ some (
          count_rx
            (record ctx { rxbuf = some buf; world = (cb max ctx.world).2 })
            now
            (cb max ctx.world).0)
unfolding append_rx
append_rx-stored ctx cb now max buf all e = rw (all, e) refl

module _ {W : Type 0} (ctx : Modbus W) (r : IsReceiving ctx) where
  pub append_rx-Arrives :
      (cb : RecvFn W) (now : ℕ)
      → IsPolite cb
      → (mem : List ℕ) × (a : Append W) × (store (deref ctx.rxbuf) ctx.rx_len (reply ctx cb).1
          ≡ some mem)
        × (append_rx ctx cb now ≡ some a)
        × Arrives ctx.rxbuf_size (reply ctx cb).0 mem (ctx.rx_len + counted (reply ctx cb).0) a
  append_rx-Arrives cb now polite =
      let v = r.valid in
      let max = ctx.rxbuf_size - ctx.rx_len in
      let all : size_t (ctx.rxbuf_size + 2 ^ 64 - ctx.rx_len) ≡ max =
        omega (arith, r.pending, r.small) in
      let (n, bytes, w) = cb max ctx.world in
      let (few, honest) = polite max ctx.world in
      let (buf, e, l) =
        store-some (deref ctx.rxbuf) ctx.rx_len bytes (omega (arith, r.room, r.pending)) in
      let ctx' = record ctx { rxbuf = some buf; world = w } in
      let r' : IsReceiving ctx' = record {
        valid = omega arith;
        framed = r.framed;
        framed_type = r.framed_type;
        room = omega (arith, r.room);
        pending = r.pending;
        small = r.small;
      } in
      (
        buf,
        count_rx ctx' now n,
        e,
        append_rx-stored ctx cb now max buf all e,
        count_rx-Arrives ctx' r' now n (omega (arith, r.pending)),
      )

pub tick_of-IsReceiving :
    {W : Type 0} (ctx : Modbus W)
    → IsReceiving ctx
    → (o : Option (TicksFn W)) → IsReceiving (tick_of ctx o).1
unfolding tick_of
tick_of-IsReceiving ctx r none = r
tick_of-IsReceiving ctx r (some cb) = world-IsReceiving ctx r (cb ctx.world).1
