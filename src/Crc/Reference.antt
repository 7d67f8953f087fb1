-- ===== src/Crc/Reference.antt =====
-- The CRC of src/crc16.c by its definition: bit by bit, with the polynomial 0xA001.
use pamodbus.Common.{
  ℕ, zero, suc, ◌+◌, ◌*◌, ◌%◌, ◌^◌, ◌/◌, ◌<◌, ◌≤◌, List, [], ◌∷◌, some, Bool, true,
}
use pamodbus.Common.{◌≡◌, refl, sym, arith, ap, ap₂, ◌∙◌, subst, bit_xor, u16}
use pamodbus.Common.{get_or, length, take, ◌==◌, ==_iff, if◌then◌else◌}
use pamodbus.Common.Bits.{all_below, all_below-lt, bit_xor-high, bit_xor-lt}
use pamodbus.Crc.{crc16_table, crc_index, crc_step, crc_loop, pa_crc16}

-- One bit: shift right, and fold the polynomial in if a 1 falls out.
unfoldable pub shift_bit : ℕ → ℕ
shift_bit r = if r % 2 == 0 then r / 2 else bit_xor (r / 2) 0xa001

abbrev pub shift_bits : ℕ → ℕ → ℕ
shift_bits zero r = r
shift_bits (suc n) r = shift_bits n (shift_bit r)

-- The register after one byte, and after all bytes.
unfoldable pub reference_step : ℕ → ℕ → ℕ
reference_step crc b = shift_bits 8 (bit_xor crc b)

unfoldable pub reference_crc : ℕ → List ℕ → ℕ
reference_crc crc [] = crc
reference_crc crc (b ∷ bytes) = reference_crc (reference_step crc b) bytes

table_step : ℕ → ℕ
table_step x = u16 (bit_xor (x / 256) (get_or crc16_table (x % 256) 0))

abbrev row_agrees : ℕ → ℕ → Bool
row_agrees h l = table_step (h * 256 + l) == shift_bits 8 (h * 256 + l)

step_table : all_below 256 (λ h. all_below 256 (row_agrees h)) ≡ true
unfolding all_below table_step crc16_table shift_bit
step_table = refl

table_step-shift_bits : (x : ℕ) → x < 2 ^ 16 → table_step x ≡ shift_bits 8 x
table_step-shift_bits x hx =
    subst (λ y. table_step y ≡ shift_bits 8 y) (omega arith)
      ((==_iff _ _).0 (agrees (x / 256) (x % 256) (omega arith) (omega arith)))
  where
    agrees : (h l : ℕ) → h < 256 → l < 256 → row_agrees h l ≡ true
    agrees h l p q =
        all_below-lt 256 (row_agrees h) l
          (all_below-lt 256 (λ k. all_below 256 (row_agrees k)) h step_table p) q

-- One byte by the table is eight bits by the definition.
crc_step-reference_step :
    (crc b : ℕ) → crc < 2 ^ 16 → b < 256 → crc_step crc b ≡ reference_step crc b
unfolding crc_step crc_index reference_step table_step
crc_step-reference_step crc b hc hb =
    ap₂ (λ h i. u16 (bit_xor h (get_or crc16_table i 0))) (sym (bit_xor-high crc b hb))
      (omega arith)
    ∙ table_step-shift_bits (bit_xor crc b) (bit_xor-lt 16 crc b hc (omega arith))

crc_step-lt : (crc b : ℕ) → crc_step crc b < 2 ^ 16
unfolding crc_step
crc_step-lt crc b = omega arith

abbrev pub IsBytes : List ℕ → Type 0
IsBytes [] = Unit {0}
IsBytes (b ∷ bytes) = (b < 256) × IsBytes bytes

crc_loop-reference :
    (crc : ℕ) (bytes : List ℕ) (len : ℕ)
    → crc < 2 ^ 16
    → IsBytes (take len bytes)
    → len ≤ length bytes
    → crc_loop crc bytes len ≡ some (reference_crc crc (take len bytes))
unfolding crc_loop reference_crc
crc_loop-reference crc bytes zero hc hb h = refl
crc_loop-reference crc [] (suc len) hc hb h = absurd (omega arith)
crc_loop-reference crc (b ∷ bytes) (suc len) hc hb h =
    crc_loop-reference (crc_step crc b) bytes len (crc_step-lt crc b) hb.1 (omega arith)
    ∙ ap (λ r. some (reference_crc r (take len bytes))) (crc_step-reference_step crc b hc hb.0)

-- `pa_crc16` of `len` bytes inside the array does not fault, and is the CRC by its definition: bit
-- by bit with the reversed polynomial 0xA001, from the register 0xFFFF.
pub pa_crc16-reference :
    (bytes : List ℕ) (len : ℕ)
    → IsBytes (take len bytes)
    → len ≤ length bytes
    → pa_crc16 bytes len ≡ some (reference_crc 0xffff (take len bytes))
unfolding pa_crc16
pa_crc16-reference bytes len hb h = crc_loop-reference 0xffff bytes len (omega arith) hb h

crc_loop-some :
    (crc : ℕ) (bytes : List ℕ) (len : ℕ)
    → len ≤ length bytes
    → (r : ℕ) × (crc_loop crc bytes len ≡ some r)
unfolding crc_loop
crc_loop-some crc bytes zero h = (crc, refl)
crc_loop-some crc [] (suc len) h = absurd (omega arith)
crc_loop-some crc (b ∷ bytes) (suc len) h = crc_loop-some (crc_step crc b) bytes len (omega arith)

-- Inside the array the loop reads no byte out of range.
pub pa_crc16-some :
    (bytes : List ℕ) (len : ℕ) → len ≤ length bytes → (r : ℕ) × (pa_crc16 bytes len ≡ some r)
unfolding pa_crc16
pa_crc16-some bytes len h = crc_loop-some 0xffff bytes len h
