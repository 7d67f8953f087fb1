-- ===== src/Pdu/Master/Padded.antt =====
-- The registers of an odd number of bytes, in FC 11 of `parse_master_response` (src/pdu.c), and
-- the bounds of the arrays.
use pamodbus.Common.{ℕ, zero, suc, ◌+◌, ◌*◌, ◌^◌, ◌≤◌, ◌<◌, List, [], ◌∷◌, some}
use pamodbus.Common.{◌≡◌, refl, arith, ◌∙◌, ltb, length, get_elem?-some, store-some}
use pamodbus.Common.{bit_or, u16, Bool-cases, inl, inr}
use pamodbus.Pdu.Master.{padded_reg, padded_regs}

padded_reg-some :
    (pdu : List ℕ) (byte_count i : ℕ)
    → 2 + byte_count ≤ length pdu
    → i * 2 < byte_count
    → (v : ℕ) × (padded_reg pdu byte_count i ≡ some v)
unfolding padded_reg
padded_reg-some pdu byte_count i fits h =
    let (hi, e) = get_elem?-some pdu (2 + i * 2) (omega arith) in
    elim (Bool-cases (ltb (i * 2 + 1) byte_count)) [
      | inl b ↦
          let (lo, e') = get_elem?-some pdu (2 + i * 2 + 1) (ground arith) in
          (u16 (bit_or (hi * 2 ^ 8) lo), rw (e, b, e') refl)
      | inr b ↦ (u16 hi, rw (e, b) refl)
    ]

pub padded_regs-some :
    (regs pdu : List ℕ) (byte_count i left : ℕ)
    → 2 + byte_count ≤ length pdu
    → i + left ≤ length regs
    → (i + left) * 2 ≤ byte_count + 1
    → (r : List ℕ) × (padded_regs regs pdu byte_count i left ≡ some r) × (length r ≡ length regs)
unfolding padded_regs
padded_regs-some regs pdu byte_count i zero fits hr hp = (regs, refl, refl)
padded_regs-some regs pdu byte_count i (suc left) fits hr hp =
    let (v, e) = padded_reg-some pdu byte_count i fits (omega arith) in
    let (b, e', l) = store-some regs i (v ∷ []) (omega arith) in
    let (r, e'', l') =
      padded_regs-some b pdu byte_count (i + 1) left fits (omega arith) (omega arith) in
    (r, rw (e, e') e'', l' ∙ l)
