-- ===== src/Framer/Rtu/Wrap.antt =====
-- `pa_framer_rtu_wrap` of src/framer_rtu.c and the frame of the PDU.
use pamodbus.Common.{ℕ, suc, ◌+◌, ◌/◌, ◌%◌, ◌≤◌, ◌<◌, List, [], ◌∷◌, ◌++◌, some, false}
use pamodbus.Common.{
  ◌≡◌, refl, sym, arith, ap, ◌∙◌, ltb, length, length-append, length-drop, take-append, drop,
}
use pamodbus.Common.{
  deref, u8, low_bits, shr, Option, append_assoc, load, store, ◌>>=◌, >>=-then, store-store,
  store-front, store-append, load-append,
}
use pamodbus.Crc.{pa_crc16}
use pamodbus.Crc.Reference.{reference_crc, IsBytes, pa_crc16-reference}
use pamodbus.Crc.Detect.{reference_crc-lt}
use pamodbus.Context.{Modbus}
use pamodbus.Framer.Outcome.{framed}
use pamodbus.Framer.Frames.{rtu_adu, crc_bytes}
use pamodbus.Framer.Rtu.{rtu_wrap}

-- The two bytes of the trailer, stored behind the body.
trailer :
    (body t : List ℕ) (a b : ℕ)
    → 2 ≤ length t
    → (store (body ++ t) (length body) (a ∷ []) >>= λ u. store u (length body + 1) (b ∷ []))
      ≡ some (body ++ a ∷ b ∷ drop 2 t)
trailer body t a b h =
    store-store (body ++ t) (length body) (a ∷ []) (b ∷ [])
    ∙ store-append body t (a ∷ b ∷ [])
    ∙ rw (store-front t (a ∷ b ∷ []) h) refl

pub crc_of_front :
    (body t : List ℕ)
    → IsBytes body
    → pa_crc16 (body ++ t) (length body) ≡ some (reference_crc 0xffff body)
crc_of_front body t h =
    pa_crc16-reference (body ++ t) (length body) (rw (take-append body t) h)
      (omega (arith, length-append body t))
    ∙ ap (λ l. some (reference_crc 0xffff l)) (take-append body t)

-- The end of the wrap: the CRC over the body is stored behind it.
seal :
    {B : Type 0} (body t : List ℕ) (k : List ℕ → Option B)
    → IsBytes body
    → 2 ≤ length t
    → (pa_crc16 (body ++ t) (length body) >>= λ crc.
        store (body ++ t) (length body) (u8 (low_bits crc 8) ∷ []) >>= λ buf.
        store buf (length body + 1) (u8 (low_bits (shr crc 8) 8) ∷ []) >>= k)
      ≡ k ((body ++ crc_bytes (reference_crc 0xffff body)) ++ drop 2 t)
seal body t k hb ht =
    let r = reference_crc 0xffff body in
    let bound = reference_crc-lt 0xffff body (omega arith) hb in
    let lo : u8 (low_bits r 8) ≡ r % 256 = omega arith in
    let hi : u8 (low_bits (shr r 8) 8) ≡ r / 256 = omega arith in
    rw (crc_of_front body t hb, lo, hi)
      (>>=-then (store (body ++ t) (length body) (r % 256 ∷ []))
          (λ u. store u (length body + 1) (r / 256 ∷ [])) k (trailer body t (r % 256) (r / 256) ht)
        ∙ ap k (sym (append_assoc body (crc_bytes r) (drop 2 t))))

drop-suc : (xs ys : List ℕ) → drop (suc (length xs)) (xs ++ ys) ≡ drop 1 ys
drop-suc [] ys = refl
drop-suc (x ∷ xs) ys = drop-suc xs ys

drop_one_two : (xs : List ℕ) → drop 2 (drop 1 xs) ≡ drop 3 xs
drop_one_two [] = refl
drop_one_two (x ∷ xs) = refl

module _ {W : Type 0} (ctx : Modbus W) where
  -- The buffer holds at least one byte, and the PDU stands at its front.
  wrap_nonempty :
      (m : ℕ) (mem pdu : List ℕ)
      → deref ctx.txbuf ≡ m ∷ mem
      → load (m ∷ mem) 0 (length pdu) ≡ some pdu
      → length pdu + 2 ≤ length mem
      → length pdu + 3 ≤ ctx.txbuf_size
      → ctx.slave < 256
      → IsBytes pdu
      → rtu_wrap ctx (length pdu)
        ≡ some (
            framed (length pdu + 3) (record ctx {
              txbuf = some (rtu_adu ctx.slave pdu ++ drop 2 (drop (length pdu) mem));
            }))
  unfolding rtu_wrap store
  wrap_nonempty m mem pdu holds loaded fits room hs hp =
      let n = length pdu in
      let guard : ltb ctx.txbuf_size (1 + n + 2) ≡ false = ground arith in
      let one : 1 + n ≡ suc n = omega arith in
      let three : suc n + 2 ≡ n + 3 = omega arith in
      rw (guard, holds, loaded, store-front mem pdu (omega arith), one)
        (seal (ctx.slave ∷ pdu) (drop n mem)
            (λ buf. some (framed (suc n + 2) (record ctx { txbuf = some buf }))) (hs, hp)
            (omega (arith, length-drop n mem))
          ∙ rw three refl)

  -- If the buffer holds the PDU at its front and has room for 3 bytes more, then the wrap succeeds
  -- and leaves the RTU frame of the PDU at the front.
  pub rtu_wrap-adu :
      (pdu rest : List ℕ)
      → deref ctx.txbuf ≡ pdu ++ rest
      → 3 ≤ length rest
      → length pdu + 3 ≤ ctx.txbuf_size
      → ctx.slave < 256
      → IsBytes pdu
      → rtu_wrap ctx (length pdu)
        ≡ some (
            framed
              (length pdu + 3)
              (record ctx { txbuf = some (rtu_adu ctx.slave pdu ++ drop 3 rest) }))
  rtu_wrap-adu [] (r ∷ rest) holds fits room hs hp =
      wrap_nonempty r rest [] holds (load-append [] (r ∷ rest)) (omega arith) room hs hp
  rtu_wrap-adu [] [] holds fits room hs hp = absurd (omega arith)
  rtu_wrap-adu (p ∷ pdu) rest holds fits room hs hp =
      wrap_nonempty p (pdu ++ rest) (p ∷ pdu) holds (load-append (p ∷ pdu) rest)
        (omega (arith, length-append pdu rest)) room hs hp
      ∙ rw (drop-suc pdu rest, drop_one_two rest) refl
