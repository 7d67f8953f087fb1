-- ===== src/Pdu/Wire/Access.antt =====
-- The helpers of src/pdu.c on 16-bit numbers and the bounds of the arrays.
use pamodbus.Common.{ℕ, zero, suc, ◌+◌, ◌*◌, ◌^◌, ◌≤◌, ◌<◌, List, [], ◌∷◌, some}
use pamodbus.Common.{
  ◌≡◌, refl, arith, ◌∙◌, length, get_elem?-some, store-some, u8, u16, shr, low_bits, bit_or,
}
use pamodbus.Pdu.Wire.{put16, get16, put_regs, get_regs}

pub get16-some :
    (pdu : List ℕ) (off : ℕ)
    → off + 1 < length pdu
    → (v : ℕ) × (get16 pdu off ≡ some v) × (v < 2 ^ 16)
unfolding get16
get16-some pdu off h =
    let (hi, e) = get_elem?-some pdu off (omega arith) in
    let (lo, e') = get_elem?-some pdu (off + 1) h in
    (u16 (bit_or (hi * 2 ^ 8) lo), rw (e, e') refl, omega arith)

pub get_regs-some :
    (regs pdu : List ℕ) (off i left : ℕ)
    → i + left ≤ length regs
    → off + (i + left) * 2 ≤ length pdu
    → (r : List ℕ) × (get_regs regs pdu off i left ≡ some r) × (length r ≡ length regs)
unfolding get_regs
get_regs-some regs pdu off i zero hr hp = (regs, refl, refl)
get_regs-some regs pdu off i (suc left) hr hp =
    let (v, e, small) = get16-some pdu (off + i * 2) (omega arith) in
    let (b, e', l) = store-some regs i (v ∷ []) (omega arith) in
    let (r, e'', l') = get_regs-some b pdu off (i + 1) left (omega arith) (omega arith) in
    (r, rw (e, e') e'', l' ∙ l)

pub put16-some :
    (buf : List ℕ) (off v : ℕ)
    → off + 1 < length buf
    → (b : List ℕ) × (put16 buf off v ≡ some b) × (length b ≡ length buf)
unfolding put16
put16-some buf off v h =
    let (b, e, l) = store-some buf off (u8 (low_bits (shr v 8) 8) ∷ []) (omega arith) in
    let (c, e', l') = store-some b (off + 1) (u8 (low_bits v 8) ∷ []) (omega arith) in
    (c, rw e e', l' ∙ l)

pub put_regs-some :
    (buf : List ℕ) (off : ℕ) (values : List ℕ) (from i left : ℕ)
    → from + i + left ≤ length values
    → off + (i + left) * 2 ≤ length buf
    → (b : List ℕ) × (put_regs buf off values from i left ≡ some b) × (length b ≡ length buf)
unfolding put_regs
put_regs-some buf off values from i zero hv hb = (buf, refl, refl)
put_regs-some buf off values from i (suc left) hv hb =
    let (v, e) = get_elem?-some values (from + i) (omega arith) in
    let (b, e', l) = put16-some buf (off + i * 2) v (omega arith) in
    let (c, e'', l') = put_regs-some b off values from (i + 1) left (omega arith) (omega arith) in
    (c, rw (e, e') e'', l' ∙ l)
