-- ===== src/Framer/Tcp/Wrap.antt =====
-- `pa_framer_tcp_wrap` of src/framer_tcp.c and the frame of the PDU.
use mathlib.Core.Path.{fun_ext}
use pamodbus.Common.{ℕ, suc, ◌+◌, ◌/◌, ◌%◌, ◌^◌, ◌≤◌, ◌<◌, List, [], ◌∷◌, ◌++◌, Option, some, false}
use pamodbus.Common.{◌≡◌, refl, arith, ap, ◌∙◌, ltb, u8, u16, shr, low_bits}
use pamodbus.Common.{length, length-append, drop, deref}
use pamodbus.Common.{store, ◌>>=◌, >>=-then, store-behind, store-front, load-append}
use pamodbus.Context.{Modbus}
use pamodbus.Framer.Outcome.{framed}
use pamodbus.Framer.Frames.{tcp_adu, be16}
use pamodbus.Framer.Tcp.{tcp_wrap}

-- The seven assignments to the header are one store.
header_stores :
    {B : Type 0} (h0 h1 h2 h3 h4 h5 h6 : ℕ) (k : List ℕ → Option B) (b : List ℕ)
    → (store b 0 (h0 ∷ []) >>= λ b. store b 1 (h1 ∷ []) >>= λ b. store b 2 (h2 ∷ []) >>= λ b.
        store b 3 (h3 ∷ []) >>= λ b.
        store b 4 (h4 ∷ []) >>= λ b. store b 5 (h5 ∷ []) >>= λ b. store b 6 (h6 ∷ []) >>= k)
      ≡ (store b 0 (h0 ∷ h1 ∷ h2 ∷ h3 ∷ h4 ∷ h5 ∷ h6 ∷ []) >>= k)
unfolding store
header_stores h0 h1 h2 h3 h4 h5 h6 k [] = refl
header_stores h0 h1 h2 h3 h4 h5 h6 k (a ∷ []) = refl
header_stores h0 h1 h2 h3 h4 h5 h6 k (a ∷ b ∷ []) = refl
header_stores h0 h1 h2 h3 h4 h5 h6 k (a ∷ b ∷ c ∷ []) = refl
header_stores h0 h1 h2 h3 h4 h5 h6 k (a ∷ b ∷ c ∷ d ∷ []) = refl
header_stores h0 h1 h2 h3 h4 h5 h6 k (a ∷ b ∷ c ∷ d ∷ e ∷ []) = refl
header_stores h0 h1 h2 h3 h4 h5 h6 k (a ∷ b ∷ c ∷ d ∷ e ∷ f ∷ []) = refl
header_stores h0 h1 h2 h3 h4 h5 h6 k (a ∷ b ∷ c ∷ d ∷ e ∷ f ∷ g ∷ t) = refl

drop_seven :
    (xs ys : List ℕ)
    → drop (suc (suc (suc (suc (suc (suc (suc (length xs)))))))) (xs ++ ys) ≡ drop 7 ys
drop_seven [] ys = refl
drop_seven (x ∷ xs) ys = drop_seven xs ys

module _ {W : Type 0} (ctx : Modbus W) where
  -- If the buffer holds the PDU at its front and has room for 7 bytes more, then the wrap succeeds,
  -- leaves the MBAP frame of the PDU at the front, and counts the transaction.
  pub tcp_wrap-adu :
      (pdu rest : List ℕ)
      → deref ctx.txbuf ≡ pdu ++ rest
      → 7 ≤ length rest
      → 7 + length pdu ≤ ctx.txbuf_size
      → length pdu + 1 < 2 ^ 16
      → ctx.next_transaction_id < 2 ^ 16
      → tcp_wrap ctx (length pdu)
        ≡ some (
            framed (7 + length pdu) (record ctx {
              txbuf = some (tcp_adu ctx.next_transaction_id ctx.slave pdu ++ drop 7 rest);
              next_transaction_id = u16 (ctx.next_transaction_id + 1);
            }))
  unfolding tcp_wrap
  tcp_wrap-adu pdu rest holds fits room small tid =
      let n = length pdu in
      let t = ctx.next_transaction_id in
      let guard : ltb ctx.txbuf_size (7 + n) ≡ false = ground arith in
      let l = u16 (n + 1) in
      let e0 : u8 (low_bits (shr t 8) 8) ≡ t / 256 = omega arith in
      let e1 : u8 (low_bits t 8) ≡ t % 256 = omega arith in
      let e4 : u8 (low_bits (shr l 8) 8) ≡ (n + 1) / 256 = omega arith in
      let e5 : u8 (low_bits l 8) ≡ (n + 1) % 256 = omega arith in
      let header = be16 t ++ be16 0 ++ be16 (n + 1) ++ ctx.slave ∷ [] in
      let k = λ (buf : List ℕ).
        some
          (framed (7 + n) (record ctx { txbuf = some buf; next_transaction_id = u16 (t + 1) })) in
      rw (guard, holds, load-append pdu rest, e0, e1, e4, e5)
        (ap (λ f. store (pdu ++ rest) 7 pdu >>= f)
            (fun_ext
              (header_stores (t / 256) (t % 256) 0 0 ((n + 1) / 256) ((n + 1) % 256) ctx.slave k))
          ∙ >>=-then (store (pdu ++ rest) 7 pdu) (λ b. store b 0 header) k
              (store-behind (pdu ++ rest) header pdu
                ∙ store-front (pdu ++ rest) (header ++ pdu) (omega (arith, length-append pdu rest)))
          ∙ rw (drop_seven pdu rest) refl)
