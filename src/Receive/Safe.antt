-- ===== src/Receive/Safe.antt =====
-- The steps of `pa_modbus_recv` (src/pamodbus.c) over RTU and the bounds of the receive buffer.
use pamodbus.Common.{ℕ, zero, suc, ◌+◌, ◌-◌, ◌^◌, ◌≤◌, ◌<◌, Option, some, true, false}
use pamodbus.Common.{
  ◌≡◌, refl, arith, ap, ◌∙◌, length, length-drop, drop, deref, load-some, store-some,
}
use pamodbus.Common.{ℤ, pos, negsuc, ltb, if◌then◌else◌, size_t, Bool, ◌>>=◌}
use pamodbus.Context.{Modbus, Result, RecvFn, Mode, master, slave_mode, rtu, rtu_ops}
use pamodbus.Context.Valid.{IsValid, Keeps, keeps}
use pamodbus.Context.Untouched.{Setup, setup_of, Untouched, untouched}
use pamodbus.Framer.Outcome.{Unwrapped, pdu_at, stopped}
use pamodbus.Framer.Ops.{unwrap}
use pamodbus.Pdu.Feed.Safe.{unwrap-some, unwrap-inside, feeds-Keeps}
use pamodbus.Pdu.Feed.Frame.{feeds-Untouched}
use pamodbus.Receive.Accumulate.{timed_out}
use pamodbus.Receive.{Found, frame, wait, trailer_len, scan_from, feed_by, idle, consume}

-- A context over RTU whose receive buffer has the size that is given, with the pending bytes in it.
pub record IsReceiving {W : Type 0} (ctx : Modbus W) : Type 0 where
  pub valid : IsValid ctx
  pub framed : ctx.framer ≡ rtu_ops
  pub framed_type : ctx.framer_type ≡ rtu
  pub room : ctx.rxbuf_size ≤ length (deref ctx.rxbuf)
  pub pending : ctx.rx_len ≤ ctx.rxbuf_size
  pub small : ctx.rxbuf_size < 2 ^ 64

-- The operation returns, and leaves such a context.
pub data Receives {W : Type 0} : Result W → Type 0 where
  receives : {ret : ℤ} {ctx : Modbus W} → IsReceiving ctx → Receives (some (ret, ctx))

module _ {W : Type 0} where
  pub Receives-if :
      (b : Bool) {x y : Result W}
      → (b ≡ true → Receives x)
      → (b ≡ false → Receives y)
      → Receives (if b then x else y)
  Receives-if true f g = f refl
  Receives-if false f g = g refl

  pub Receives-bind :
      {A : Type 0} {o : Option A} (f : A → Result W) {a : A}
      → o ≡ some a
      → Receives (f a)
      → Receives (o >>= f)
  Receives-bind f e r = rw e r

  -- What a feed function returns, with both of its properties.
  pub kept :
      {base : Setup W} {r : Result W}
      → Keeps r
      → Untouched base r
      → (ret : ℤ) × (ctx : Modbus W) × (r ≡ some (ret, ctx)) × IsValid ctx × (setup_of ctx ≡ base)
  kept (keeps {ret} {ctx} v) (untouched e) = (ret, ctx, refl, v, e)

-- The frame that was found lies in the pending bytes.
abbrev pub Fits : ℕ → Found → Type 0
Fits n (frame start len) = start + len ≤ n
Fits n wait = Unit {0}

-- What the receive callback promises: no more bytes than asked for, and no more counted than stored.
abbrev pub counted : ℤ → ℕ
counted (pos n) = n
counted (negsuc n) = 0

abbrev pub IsPolite : {W : Type 0} → RecvFn W → Type 0
IsPolite {W} cb =
    (max : ℕ) (w : W) → (length (cb max w).1 ≤ max) × (counted (cb max w).0 ≤ length (cb max w).1)

module _ {W : Type 0} (ctx : Modbus W) (r : IsReceiving ctx) where
  pub scan_from-Fits :
      (off left : ℕ)
      → off + left ≡ ctx.rx_len
      → (f : Found) × (scan_from ctx off left ≡ some f) × Fits ctx.rx_len f
  unfolding scan_from trailer_len
  scan_from-Fits off zero h = (wait, refl, tt)
  scan_from-Fits off (suc left) h =
      let bytes = drop off (deref ctx.rxbuf) in
      let len = ctx.rx_len - off in
      let fits : len ≤ length bytes =
        omega (arith, length-drop off (deref ctx.rxbuf), r.room, r.pending) in
      let (u, e) = unwrap-some ctx r.valid r.framed bytes len fits in
      found u e (scan_from-Fits (off + 1) left (omega arith))
    where
      found :
          (u : Unwrapped)
          → unwrap ctx (drop off (deref ctx.rxbuf)) (ctx.rx_len - off) ≡ some u
          → (f : Found) × (scan_from ctx (off + 1) left ≡ some f) × Fits ctx.rx_len f
          → (f : Found) × (scan_from ctx off (suc left) ≡ some f) × Fits ctx.rx_len f
      found (stopped ret) e (f, g, p) = (f, rw e g, p)
      found (pdu_at start n) e ih =
          let t = r.framed_type in
          let fits : ctx.rx_len - off ≤ length (drop off (deref ctx.rxbuf)) =
            omega (arith, length-drop off (deref ctx.rxbuf), r.room, r.pending) in
          let (one, inside) = unwrap-inside ctx r.valid r.framed _ _ fits e in
          let whole : size_t (start + n + 2) ≡ start + n + 2 =
            omega (arith, r.pending, r.small, inside) in
          (
            frame off (start + n + 2),
            rw e (
                ap (λ t. some (frame off (size_t (start + n + trailer_len t)))) t
                ∙ ap (λ k. some (frame off k)) whole),
            omega arith,
          )

  pub reset-IsReceiving : IsReceiving (record ctx { rx_len = 0 })
  reset-IsReceiving =
      let v = r.valid in
      record {
        valid = omega arith;
        framed = r.framed;
        framed_type = r.framed_type;
        room = r.room;
        pending = omega arith;
        small = r.small;
      }

  pub world-IsReceiving : (w : W) → IsReceiving (record ctx { world = w })
  world-IsReceiving w =
      let v = r.valid in
      record {
        valid = omega arith;
        framed = r.framed;
        framed_type = r.framed_type;
        room = r.room;
        pending = r.pending;
        small = r.small;
      }

  -- A context with the same set-up receives as well.
  pub same-IsReceiving : (c : Modbus W) → IsValid c → setup_of c ≡ setup_of ctx → IsReceiving c
  same-IsReceiving c v e =
      let size : c.rxbuf_size ≡ ctx.rxbuf_size = ap (λ s. s.rxbuf_size) e in
      let n : c.rx_len ≡ ctx.rx_len = ap (λ s. s.rx_len) e in
      let mem : length (deref c.rxbuf) ≡ length (deref ctx.rxbuf) =
        ap (λ s. length (deref s.rxbuf)) e in
      record {
        valid = v;
        framed = ap (λ s. s.framer) e ∙ r.framed;
        framed_type = ap (λ s. s.framer_type) e ∙ r.framed_type;
        room = omega (arith, r.room);
        pending = omega (arith, r.pending);
        small = omega (arith, r.small);
      }

  pub idle-Receives : (now : ℕ) → Receives (idle ctx now)
  unfolding idle
  idle-Receives now =
      Receives-if (timed_out ctx now) (λ p. receives reset-IsReceiving) (λ p. receives r)

  pub consume-Receives : (now k : ℕ) (ret : ℤ) → k ≤ ctx.rx_len → Receives (consume ctx now k ret)
  unfolding consume
  consume-Receives now k ret h =
      let v = r.valid in
      let rest = size_t (ctx.rx_len + 2 ^ 64 - k) in
      let left : rest ≡ ctx.rx_len - k = omega (arith, r.pending, r.small) in
      let (bytes, eb, lb) = load-some (deref ctx.rxbuf) k rest (omega (arith, r.room, r.pending)) in
      let (buf, es, ls) = store-some (deref ctx.rxbuf) 0 bytes (omega (arith, r.room, r.pending)) in
      Receives-if (ltb 0 rest)
        (λ p. Receives-bind _ eb (
          Receives-bind _ es (
            receives (record {
              valid = omega arith;
              framed = r.framed;
              framed_type = r.framed_type;
              room = omega (arith, r.room);
              pending = omega (arith, r.pending);
              small = r.small;
            }))))
        (λ p. receives (record {
          valid = omega arith;
          framed = r.framed;
          framed_type = r.framed_type;
          room = r.room;
          pending = omega (arith, r.pending);
          small = r.small;
        }))

  pub feed_by-Keeps :
      (m : Mode) (start len : ℕ)
      → start + len ≤ ctx.rx_len
      → Keeps (feed_by ctx m (drop start (deref ctx.rxbuf)) len)
        × Untouched (setup_of ctx) (feed_by ctx m (drop start (deref ctx.rxbuf)) len)
  unfolding feed_by
  feed_by-Keeps m start len h =
      let bytes = drop start (deref ctx.rxbuf) in
      let fits : len ≤ length bytes =
        omega (arith, length-drop start (deref ctx.rxbuf), r.room, r.pending) in
      let keep = feeds-Keeps ctx r.valid r.framed bytes len fits in
      let same = feeds-Untouched ctx bytes len in
      elim m
        as (λ m.
          Keeps (feed_by ctx m bytes len) × Untouched (setup_of ctx) (feed_by ctx m bytes len)) [
            | master ↦ (keep.0, same.0)
            | slave_mode ↦ (keep.1, same.1)
          ]
