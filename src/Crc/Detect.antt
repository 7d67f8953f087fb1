-- ===== src/Crc/Detect.antt =====
-- The CRC of src/crc16.c as a function of each byte of a message.
use pamodbus.Common.{ℕ, zero, suc, ◌+◌, ◌*◌, ◌%◌, ◌^◌, ◌/◌, ◌<◌, List, [], ◌∷◌, ◌++◌, Bool, true}
use pamodbus.Common.{◌≡◌, ◌≢◌, refl, sym, arith, ap, ◌∙◌, subst, bit_xor, some}
use pamodbus.Common.{length, take, ltb, ◌==◌, ◌&&◌, if◌then◌else◌}
use pamodbus.Common.Bits.{
  all_below, all_below-lt, bit_xor_cancel_left, bit_xor_cancel_right, bit_xor-lt,
}
use pamodbus.Crc.{pa_crc16}
use pamodbus.Crc.Reference.{
  shift_bit, shift_bits, reference_step, reference_crc, IsBytes, pa_crc16-reference,
}

-- The register before a bit was shifted out.
unshift_bit : ℕ → ℕ
unshift_bit s = if ltb s 0x8000 then s * 2 else bit_xor s 0xa001 * 2 + 1

abbrev row_undone : ℕ → ℕ → Bool
row_undone h l =
    unshift_bit (shift_bit (h * 256 + l)) == h * 256 + l && ltb (shift_bit (h * 256 + l)) (2 ^ 16)

undo_table : all_below 256 (λ h. all_below 256 (row_undone h)) ≡ true
unfolding all_below shift_bit unshift_bit
undo_table = refl

shift_bit_undone : (r : ℕ) → r < 2 ^ 16 → (unshift_bit (shift_bit r) ≡ r) × (shift_bit r < 2 ^ 16)
shift_bit_undone r h =
    subst (λ y. (unshift_bit (shift_bit y) ≡ y) × (shift_bit y < 2 ^ 16)) (omega arith)
      (undone (r / 256) (r % 256) (omega arith) (omega arith))
  where
    undone :
        (h l : ℕ)
        → h < 256
        → l < 256
        → (unshift_bit (shift_bit (h * 256 + l)) ≡ h * 256 + l) × (shift_bit (h * 256 + l) < 2 ^ 16)
    undone h l p q = ground (
      arith,
      all_below-lt 256 (row_undone h) l
          (all_below-lt 256 (λ k. all_below 256 (row_undone k)) h undo_table p) q,
    )

shift_bit_injective : (r s : ℕ) → r < 2 ^ 16 → s < 2 ^ 16 → shift_bit r ≡ shift_bit s → r ≡ s
shift_bit_injective r s hr hs e =
    sym (shift_bit_undone r hr).0 ∙ ap unshift_bit e ∙ (shift_bit_undone s hs).0

shift_bits-lt : (n r : ℕ) → r < 2 ^ 16 → shift_bits n r < 2 ^ 16
shift_bits-lt zero r h = h
shift_bits-lt (suc n) r h = shift_bits-lt n (shift_bit r) (shift_bit_undone r h).1

shift_bits_injective :
    (n r s : ℕ) → r < 2 ^ 16 → s < 2 ^ 16 → shift_bits n r ≡ shift_bits n s → r ≡ s
shift_bits_injective zero r s hr hs e = e
shift_bits_injective (suc n) r s hr hs e = shift_bit_injective r s hr hs (
    shift_bits_injective n (shift_bit r) (shift_bit s) (shift_bit_undone r hr).1
      (shift_bit_undone s hs).1 e)

pub reference_step-lt : (crc b : ℕ) → crc < 2 ^ 16 → b < 256 → reference_step crc b < 2 ^ 16
unfolding reference_step
reference_step-lt crc b hc hb =
    shift_bits-lt 8 (bit_xor crc b) (bit_xor-lt 16 crc b hc (omega arith))

-- The CRC is a 16-bit number.
pub reference_crc-lt :
    (crc : ℕ) (bytes : List ℕ) → crc < 2 ^ 16 → IsBytes bytes → reference_crc crc bytes < 2 ^ 16
unfolding reference_crc
reference_crc-lt crc [] hc hb = hc
reference_crc-lt crc (b ∷ bytes) hc hb =
    reference_crc-lt (reference_step crc b) bytes (reference_step-lt crc b hc hb.0) hb.1

step_byte_injective :
    (crc a b : ℕ)
    → crc < 2 ^ 16
    → a < 256
    → b < 256
    → reference_step crc a ≡ reference_step crc b
    → a ≡ b
unfolding reference_step
step_byte_injective crc a b hc ha hb e =
    sym (bit_xor_cancel_left crc a)
    ∙ ap (bit_xor crc) (
        shift_bits_injective 8 (bit_xor crc a) (bit_xor crc b)
          (bit_xor-lt 16 crc a hc (omega arith)) (bit_xor-lt 16 crc b hc (omega arith)) e)
    ∙ bit_xor_cancel_left crc b

step_register_injective :
    (c d b : ℕ)
    → c < 2 ^ 16
    → d < 2 ^ 16
    → b < 256
    → reference_step c b ≡ reference_step d b
    → c ≡ d
unfolding reference_step
step_register_injective c d b hc hd hb e =
    sym (bit_xor_cancel_right c b)
    ∙ ap (λ x. bit_xor x b)
        (shift_bits_injective 8 (bit_xor c b) (bit_xor d b) (bit_xor-lt 16 c b hc (omega arith))
          (bit_xor-lt 16 d b hd (omega arith)) e)
    ∙ bit_xor_cancel_right d b

crc_register_injective :
    (c d : ℕ) (bytes : List ℕ)
    → c < 2 ^ 16
    → d < 2 ^ 16
    → IsBytes bytes
    → reference_crc c bytes ≡ reference_crc d bytes
    → c ≡ d
unfolding reference_crc
crc_register_injective c d [] hc hd hb e = e
crc_register_injective c d (b ∷ bytes) hc hd hb e = step_register_injective c d b hc hd hb.0 (
    crc_register_injective (reference_step c b) (reference_step d b) bytes
      (reference_step-lt c b hc hb.0) (reference_step-lt d b hd hb.0) hb.1 e)

pub crc_byte_injective :
    (crc : ℕ) (before after : List ℕ) (a b : ℕ)
    → crc < 2 ^ 16
    → IsBytes (before ++ a ∷ after)
    → IsBytes (before ++ b ∷ after)
    → reference_crc crc (before ++ a ∷ after) ≡ reference_crc crc (before ++ b ∷ after)
    → a ≡ b
unfolding reference_crc
crc_byte_injective crc [] after a b hc ha hb e = step_byte_injective crc a b hc ha.0 hb.0 (
    crc_register_injective (reference_step crc a) (reference_step crc b) after
      (reference_step-lt crc a hc ha.0) (reference_step-lt crc b hc hb.0) ha.1 e)
crc_byte_injective crc (x ∷ before) after a b hc ha hb e =
    crc_byte_injective (reference_step crc x) before after a b (reference_step-lt crc x hc ha.0)
      ha.1 hb.1 e

take_all : (xs : List ℕ) → take (length xs) xs ≡ xs
take_all [] = refl
take_all (x ∷ xs) = ap (◌∷◌ x) (take_all xs)

-- If two messages of bytes differ in exactly one byte, at any place, then their CRCs differ.
pub pa_crc16_detects :
    (before after : List ℕ) (a b : ℕ)
    → IsBytes (before ++ a ∷ after)
    → IsBytes (before ++ b ∷ after)
    → a ≢ b
    → pa_crc16 (before ++ a ∷ after) (length (before ++ a ∷ after))
      ≢ pa_crc16 (before ++ b ∷ after) (length (before ++ b ∷ after))
pa_crc16_detects before after a b ha hb ne e =
    ne
      (crc_byte_injective 0xffff before after a b (omega arith) ha hb (cc (whole a ha, whole b hb)))
  where
    whole :
        (x : ℕ)
        → IsBytes (before ++ x ∷ after)
        → pa_crc16 (before ++ x ∷ after) (length (before ++ x ∷ after))
          ≡ some (reference_crc 0xffff (before ++ x ∷ after))
    whole x h =
        pa_crc16-reference (before ++ x ∷ after) (length (before ++ x ∷ after))
          (rw (take_all (before ++ x ∷ after)) h) (omega arith)
        ∙ ap (λ l. some (reference_crc 0xffff l)) (take_all (before ++ x ∷ after))
