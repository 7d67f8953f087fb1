-- ===== src/Pdu/Build/Coils.antt =====
-- How `pa_modbus_build_write_multiple_coils` of src/pdu.c packs the coils.
use pamodbus.Common.{
  ℕ, zero, suc, ◌+◌, ◌/◌, ◌%◌, ◌^◌, ◌<◌, List, [], ◌∷◌, Option, some, none, true, false,
}
use pamodbus.Common.{
  ◌≡◌, refl, sym, ap, ◌∙◌, subst, arith, inl, inr, length, get_elem?, get_elem?-some, store, write,
  ◌>>=◌, ◌==◌, ==_iff, if◌then◌else◌, Bool-cases, u8, shr, low_bits, bit_or,
}
use mathlib.Core.Option
use pamodbus.Common.Bits.{all_below, all_below-lt}
use pamodbus.Crc.Reference.{IsBytes}
use pamodbus.Pdu.Build.{set_coil}

-- The coil `j` of the bytes behind the header of the request, as `pa_modbus_get_coil` takes one out.
abbrev pub coil_at : List ℕ → ℕ → Option ℕ
coil_at buf j = get_elem? buf (6 + j / 8) >>= λ byte. some (low_bits (shr byte (j % 8)) 1)

-- One bit of a byte is set, and the others stay.
set_bit_table :
    all_below 256 (λ b. all_below 8 (λ i. all_below 8 (λ j.
      low_bits (shr (u8 (bit_or b (u8 (2 ^ i)))) j) 1
      == (if i == j then 1 else low_bits (shr b j) 1))))
    ≡ true
unfolding all_below
set_bit_table = refl

set_bit :
    (b i j : ℕ)
    → b < 256
    → i < 8
    → j < 8
    → low_bits (shr (u8 (bit_or b (u8 (2 ^ i)))) j) 1 ≡ (if i == j then 1 else low_bits (shr b j) 1)
set_bit b i j hb hi hj =
    (==_iff _ _).0
      (all_below-lt 8 _ j (all_below-lt 8 _ i (all_below-lt 256 _ b set_bit_table hb) hi) hj)

step-== : (k j : ℕ) → (suc k == suc j) ≡ (k == j)
step-== k j = elim (Bool-cases (k == j)) [
  | inl e ↦ let same : (suc k == suc j) ≡ true = ground arith in same ∙ sym e
  | inr e ↦ let other : (suc k == suc j) ≡ false = ground arith in other ∙ sym e
]

-- A write inside the array, and what is read behind it.
record Written (buf : List ℕ) (k v : ℕ) : Type 0 where
  after : List ℕ
  wrote : write buf k v ≡ some after
  size : length after ≡ length buf
  bytes : IsBytes after
  reads : (j : ℕ) → get_elem? after j ≡ (if k == j then some v else get_elem? buf j)

write-Written : (buf : List ℕ) (k v : ℕ) → k < length buf → v < 256 → IsBytes buf → Written buf k v
unfolding store
write-Written [] k v h hv hb = absurd (omega arith)
write-Written (x ∷ xs) zero v h hv hb = record {
  after = v ∷ xs;
  wrote = refl;
  size = refl;
  bytes = (hv, hb.1);
  reads = front;
}
  where
    front : (j : ℕ) → get_elem? (v ∷ xs) j ≡ (if 0 == j then some v else get_elem? (x ∷ xs) j)
    front zero = refl
    front (suc j) = let guard : (0 == suc j) ≡ false = ground arith in rw guard refl
write-Written (x ∷ xs) (suc k) v h hv hb =
    let r = write-Written xs k v (omega arith) hv hb.1 in
    record {
      after = x ∷ r.after;
      wrote = ap (Option.map (◌∷◌ x)) r.wrote;
      size = ap suc r.size;
      bytes = (hb.0, r.bytes);
      reads = behind r;
    }
  where
    behind :
        (r : Written xs k v) (j : ℕ)
        → get_elem? (x ∷ r.after) j ≡ (if suc k == j then some v else get_elem? (x ∷ xs) j)
    behind r zero = let guard : (suc k == 0) ≡ false = ground arith in rw guard refl
    behind r (suc j) = rw (step-== k j) (r.reads j)

-- One coil is set, and the others stay.
pub record CoilSet (buf : List ℕ) (i : ℕ) : Type 0 where
  pub after : List ℕ
  pub set : set_coil buf i ≡ some after
  pub size : length after ≡ length buf
  pub bytes : IsBytes after
  pub coils : (j : ℕ) → coil_at after j ≡ (if i == j then some 1 else coil_at buf j)

IsBytes-get : (buf : List ℕ) (k : ℕ) {b : ℕ} → IsBytes buf → get_elem? buf k ≡ some b → b < 256
IsBytes-get [] k h e = cc
IsBytes-get (x ∷ xs) zero h e =
    subst (λ b. b < 256) (ap (λ o. elim o [ none ↦ x | some b ↦ b ]) e) h.0
IsBytes-get (x ∷ xs) (suc k) h e = IsBytes-get xs k h.1 e

module _ (buf : List ℕ) (i byte : ℕ) (got : get_elem? buf (6 + i / 8) ≡ some byte)
    (small : byte < 256) where
  abbrev with_coil : ℕ
  with_coil = u8 (bit_or byte (u8 (2 ^ (i % 8))))

  same_byte :
      (j : ℕ)
      → 6 + i / 8 ≡ 6 + j / 8
      → some (low_bits (shr with_coil (j % 8)) 1) ≡ (if i == j then some 1 else coil_at buf j)
  same_byte j same =
      let bit = set_bit byte (i % 8) (j % 8) small (omega arith) (omega arith) in
      elim (Bool-cases (i == j)) [
        | inl d ↦
            let whole : i ≡ j = ground arith in
            let low : (i % 8 == j % 8) ≡ true = ground arith in rw d (ap some (bit ∙ rw low refl))
        | inr d ↦
            let low : (i % 8 == j % 8) ≡ false = ground arith in
            let there : get_elem? buf (6 + j / 8) ≡ some byte =
              subst (λ k. get_elem? buf k ≡ some byte) same got in
            rw (d, there) (ap some (bit ∙ rw low refl))
      ]

  coil_at-Written :
      (w : Written buf (6 + i / 8) with_coil) (j : ℕ)
      → coil_at w.after j ≡ (if i == j then some 1 else coil_at buf j)
  coil_at-Written w j =
      ap (λ o. o >>= λ byte. some (low_bits (shr byte (j % 8)) 1)) (w.reads (6 + j / 8))
      ∙ elim (Bool-cases (6 + i / 8 == 6 + j / 8)) [
        | inl e ↦ let same : 6 + i / 8 ≡ 6 + j / 8 = ground arith in rw e (same_byte j same)
        | inr e ↦ let apart : (i == j) ≡ false = ground arith in rw (e, apart) refl
      ]

pub set_coil-CoilSet : (buf : List ℕ) (i : ℕ) → 6 + i / 8 < length buf → IsBytes buf → CoilSet buf i
unfolding set_coil
set_coil-CoilSet buf i there hb =
    let (byte, got) = get_elem?-some buf (6 + i / 8) there in
    let small = IsBytes-get buf (6 + i / 8) hb got in
    let w = write-Written buf (6 + i / 8) (with_coil buf i byte got small) there (omega arith) hb in
    record {
      after = w.after;
      set = rw got w.wrote;
      size = w.size;
      bytes = w.bytes;
      coils = coil_at-Written buf i byte got small w;
    }
