-- ===== src/Receive/Trailer.antt =====
-- src/pamodbus.c: the loop of `pa_modbus_recv_raw` over the lengths of a frame.
use pamodbus.Common.{
  ℕ, zero, suc, ◌+◌, ◌-◌, ◌*◌, ◌^◌, ◌≤◌, ◌<◌, List, Option, none, some, Bool, true, false, ◌≡◌,
  refl, sym, ap, ◌∙◌, subst, arith, ==_iff, get_elem?, Bool-cases, inl, inr,
}
use pamodbus.Common.{length, get_elem?-some, ◌==◌, u16, bit_or}
use pamodbus.Crc.{pa_crc16}
use pamodbus.Crc.Reference.{pa_crc16-some}
use pamodbus.Context.{}
use pamodbus.Receive.Raw.{crc_fits, raw_scan}

-- The first `n` bytes end in the CRC of those before, with its low byte first.
abbrev pub EndsInCrc : List ℕ → ℕ → Type 0
EndsInCrc buf n =
    (lo : ℕ) × (hi : ℕ) × (get_elem? buf (n - 2) ≡ some lo)
    × (get_elem? buf (n - 1) ≡ some hi)
    × (pa_crc16 buf (n - 2) ≡ some (u16 (bit_or (hi * 2 ^ 8) lo)))

-- No length from `from` on, for `count` of them, ends in the CRC of what is before.
abbrev pub NoneFits : List ℕ → ℕ → ℕ → Type 0
NoneFits buf from zero = Unit {0}
NoneFits buf from (suc count) = (¬ EndsInCrc buf from) × NoneFits buf (from + 1) count

-- What the scan finds among `left` lengths: the first that fits, or none.
pub data Scanned (buf : List ℕ) (from left : ℕ) : Option ℕ → Type 0 where
  hit :
      (k : ℕ)
      → k < left
      → NoneFits buf from k
      → EndsInCrc buf (from + k)
      → Scanned buf from left (some (from + k))
  miss : NoneFits buf from left → Scanned buf from left none

-- What `crc_fits` finds.
data Decided (buf : List ℕ) (n : ℕ) : Bool → Type 0 where
  ends : EndsInCrc buf n → Decided buf n true
  ends_not : ¬ EndsInCrc buf n → Decided buf n false

some_eq : {A : Type 0} {a b : A} → some a ≡ some b → a ≡ b
some_eq e = cc

decided :
    (buf : List ℕ) (n lo hi crc : ℕ)
    → get_elem? buf (n - 2) ≡ some lo
    → get_elem? buf (n - 1) ≡ some hi
    → pa_crc16 buf (n - 2) ≡ some crc
    → Decided buf n (crc == u16 (bit_or (hi * 2 ^ 8) lo))
decided buf n lo hi crc e₁ e₂ e₃ = elim (Bool-cases (crc == u16 (bit_or (hi * 2 ^ 8) lo))) [
  | inl e ↦
      let same : crc ≡ u16 (bit_or (hi * 2 ^ 8) lo) = (==_iff _ _).0 e in
      rw e (ends (lo, hi, e₁, e₂, e₃ ∙ ap some same))
  | inr e ↦ rw e (
      ends_not λ (lo', hi', f₁, f₂, f₃).
        let low : lo' ≡ lo = some_eq (sym f₁ ∙ e₁) in
        let high : hi' ≡ hi = some_eq (sym f₂ ∙ e₂) in
        let same : crc ≡ u16 (bit_or (hi' * 2 ^ 8) lo') = some_eq (sym e₃ ∙ f₃) in
        let whole : crc ≡ u16 (bit_or (hi * 2 ^ 8) lo) = rw (low, high) at same in
        let yes = (==_iff crc (u16 (bit_or (hi * 2 ^ 8) lo))).1 whole in cc)
]

crc_fits-Decided :
    (buf : List ℕ) (n : ℕ)
    → 2 ≤ n
    → n ≤ length buf
    → (fits : Bool) × (crc_fits buf n ≡ some fits) × Decided buf n fits
unfolding crc_fits
crc_fits-Decided buf n low high =
    let (lo, e₁) = get_elem?-some buf (n - 2) (omega arith) in
    let (hi, e₂) = get_elem?-some buf (n - 1) (omega arith) in
    let (crc, e₃) = pa_crc16-some buf (n - 2) (omega arith) in
    (crc == u16 (bit_or (hi * 2 ^ 8) lo), rw (e₁, e₂, e₃) refl, decided buf n lo hi crc e₁ e₂ e₃)

-- One length more that does not fit.
Scanned-next :
    (buf : List ℕ) (from left : ℕ) (o : Option ℕ)
    → ¬ EndsInCrc buf from
    → Scanned buf (from + 1) left o
    → Scanned buf from (suc left) o
Scanned-next buf from left o e (hit k lt before fits) =
    let moved : from + 1 + k ≡ from + suc k = omega arith in
    subst (λ n. Scanned buf from (suc left) (some n)) (sym moved)
      (hit (suc k) (omega arith) (e, before) (subst (EndsInCrc buf) moved fits))
Scanned-next buf from left o e (miss before) = miss (e, before)

pub raw_scan-Scanned :
    (buf : List ℕ) (from left : ℕ)
    → 2 ≤ from
    → from + left ≤ length buf + 1
    → (o : Option ℕ) × (raw_scan buf from left ≡ some o) × Scanned buf from left o
unfolding raw_scan
raw_scan-Scanned buf from zero low high = (none, refl, miss tt)
raw_scan-Scanned buf from (suc left) low high =
    let (fits, e, decision) = crc_fits-Decided buf from low (omega arith) in
    step fits e decision (λ room. raw_scan-Scanned buf (from + 1) left (omega arith) room)
  where
    step :
        (fits : Bool)
        → crc_fits buf from ≡ some fits
        → Decided buf from fits
        → (from + 1 + left ≤ length buf + 1
            → (o : Option ℕ) × (raw_scan buf (from + 1) left ≡ some o)
              × Scanned buf (from + 1) left o)
        → (o : Option ℕ) × (raw_scan buf from (suc left) ≡ some o) × Scanned buf from (suc left) o
    step fits e (ends crc) ih =
        let same : from + 0 ≡ from = omega arith in
        (
          some from,
          rw e refl,
          subst (λ n. Scanned buf from (suc left) (some n)) same
              (hit 0 (omega arith) tt (subst (EndsInCrc buf) (sym same) crc)),
        )
    step fits e (ends_not other) ih =
        let (o, found, scanned) = ih (omega arith) in
        (o, rw e found, Scanned-next buf from left o other scanned)
