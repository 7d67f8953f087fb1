-- ===== src/Receive/First.antt =====
-- src/pamodbus.c: which frame `pa_rx_scan_frame` finds among the pending bytes, over RTU.
use pamodbus.Common.{
  ℕ, zero, suc, ◌+◌, ◌-◌, ◌≤◌, ◌<◌, List, [], ◌∷◌, some, ◌≡◌, refl, sym, ap, ◌∙◌, subst, arith, ℤ,
}
use pamodbus.Common.{size_t, length, length-drop, drop, deref}
use pamodbus.Crc.Reference.{IsBytes}
use pamodbus.Context.{Modbus}
use pamodbus.Framer.Outcome.{Unwrapped, pdu_at, stopped}
use pamodbus.Framer.Ops.{unwrap, unwrap-rtu_unwrap}
use pamodbus.Framer.Rtu.Accept.{IsAccepted, rtu_unwrap-IsAccepted}
use pamodbus.Pdu.Feed.Safe.{unwrap-some}
use pamodbus.Receive.{Found, frame, wait, trailer_len, scan_from, scan_frame}
use pamodbus.Receive.Safe.{IsReceiving}

module _ {W : Type 0} (ctx : Modbus W) where
  -- No frame starts at the offsets from `off` on, for `count` of them.
  abbrev pub NoFrames : ℕ → ℕ → Type 0
  NoFrames off zero = Unit {0}
  NoFrames off (suc count) =
      ((ret : ℤ) × (unwrap ctx (drop off (deref ctx.rxbuf)) (ctx.rx_len - off)
          ≡ some (stopped ret)))
      × NoFrames (off + 1) count

  -- What a scan of `left` offsets finds: the first frame, from its PDU to its CRC, or none.
  pub data First (off left : ℕ) : Found → Type 0 where
    first :
        (k n : ℕ)
        → k < left
        → NoFrames off k
        → IsAccepted ctx (drop (off + k) (deref ctx.rxbuf)) (ctx.rx_len - (off + k)) 1 n
        → First off left (frame (off + k) (1 + n + 2))
    none_found : NoFrames off left → First off left wait

drop-IsBytes : (n : ℕ) (bytes : List ℕ) → IsBytes bytes → IsBytes (drop n bytes)
drop-IsBytes zero bytes h = h
drop-IsBytes (suc n) [] h = tt
drop-IsBytes (suc n) (b ∷ bytes) h = drop-IsBytes n bytes h.1

module _ {W : Type 0} (ctx : Modbus W) (r : IsReceiving ctx)
    (bytes : IsBytes (deref ctx.rxbuf)) where
  First-next :
      (off left : ℕ) (f : Found) (ret : ℤ)
      → unwrap ctx (drop off (deref ctx.rxbuf)) (ctx.rx_len - off) ≡ some (stopped ret)
      → First ctx (off + 1) left f
      → First ctx off (suc left) f
  First-next off left f ret e (first k n lt before accepted) =
      let moved : off + 1 + k ≡ off + suc k = omega arith in
      subst (λ o. First ctx off (suc left) (frame o (1 + n + 2))) (sym moved)
        (first (suc k) n (omega arith) ((ret, e), before)
          (subst (λ o. IsAccepted ctx (drop o (deref ctx.rxbuf)) (ctx.rx_len - o) 1 n) moved
            accepted))
  First-next off left f ret e (none_found before) = none_found ((ret, e), before)

  scan_from-First :
      (off left : ℕ)
      → off + left ≡ ctx.rx_len
      → (f : Found) × (scan_from ctx off left ≡ some f) × First ctx off left f
  unfolding scan_from trailer_len
  scan_from-First off zero h = (wait, refl, none_found tt)
  scan_from-First off (suc left) h =
      let fits : ctx.rx_len - off ≤ length (drop off (deref ctx.rxbuf)) =
        omega (arith, length-drop off (deref ctx.rxbuf), r.room, r.pending) in
      let (u, e) =
        unwrap-some ctx r.valid r.framed (drop off (deref ctx.rxbuf)) (ctx.rx_len - off) fits in
      found u e (scan_from-First (off + 1) left (omega arith))
    where
      found :
          (u : Unwrapped)
          → unwrap ctx (drop off (deref ctx.rxbuf)) (ctx.rx_len - off) ≡ some u
          → (f : Found) × (scan_from ctx (off + 1) left ≡ some f) × First ctx (off + 1) left f
          → (f : Found) × (scan_from ctx off (suc left) ≡ some f) × First ctx off (suc left) f
      found (stopped ret) e (f, g, p) = (f, rw e g, First-next off left f ret e p)
      found (pdu_at start n) e ih =
          let memory = drop off (deref ctx.rxbuf) in
          let len = ctx.rx_len - off in
          let accepted =
            rtu_unwrap-IsAccepted ctx memory len (drop-IsBytes off (deref ctx.rxbuf) bytes)
              (sym (unwrap-rtu_unwrap ctx r.framed memory len) ∙ e) in
          let one : start ≡ 1 = accepted.start in
          let same : off + 0 ≡ off = omega arith in
          let here = subst (λ s. IsAccepted ctx memory len s n) one accepted in
          let there : First ctx off (suc left) (frame (off + 0) (1 + n + 2)) =
            first 0 n (omega arith) tt (
              subst (λ o. IsAccepted ctx (drop o (deref ctx.rxbuf)) (ctx.rx_len - o) 1 n) (sym same)
                here) in
          let inside = accepted.inside in
          let whole : size_t (start + n + 2) ≡ start + n + 2 =
            omega (arith, r.pending, r.small, inside) in
          (
            frame off (start + n + 2),
            rw e (
                ap (λ t. some (frame off (size_t (start + n + trailer_len t)))) r.framed_type
                ∙ ap (λ k. some (frame off k)) whole),
            subst (λ s. First ctx off (suc left) (frame off (s + n + 2))) (sym one)
                (subst (λ o. First ctx off (suc left) (frame o (1 + n + 2))) same there),
          )

  -- The scan finds the first frame: over RTU, in a buffer of bytes that has the size that is given and the pending
  -- bytes in it, `pa_rx_scan_frame` reports the first offset at which the unwrapping does not stop, where a
  -- whole frame for this context stands, with its address, PDU and CRC within the pending bytes, together with
  -- the length of the frame; or it reports none, and then the unwrapping stops at every offset.
  pub scan_frame-First : (f : Found) × (scan_frame ctx ≡ some f) × First ctx 0 ctx.rx_len f
  unfolding scan_frame
  scan_frame-First = scan_from-First 0 ctx.rx_len (omega arith)
