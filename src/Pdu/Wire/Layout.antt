-- ===== src/Pdu/Wire/Layout.antt =====
-- What the helpers of src/pdu.c write and read: 16-bit numbers with the high byte first.
use pamodbus.Common.{
  drop, ℕ, zero, suc, ◌+◌, ◌*◌, ◌/◌, ◌%◌, ◌^◌, ◌≤◌, ◌<◌, List, [], ◌∷◌, ◌++◌, some,
}
use pamodbus.Common.{
  ◌≡◌, refl, sym, arith, ap, ap₂, write, store-front, store-some, ◌∙◌, append_assoc, length,
  length-append, get_elem?, get_elem?-append, get_elem?-append_suc,
}
use mathlib.Core.Option
use pamodbus.Common.{store, store-store, store-append, u8, u16, shr, low_bits, bit_or}
use pamodbus.Common.Bits.{bit_or_bytes}
use pamodbus.Framer.Frames.{be16}
use pamodbus.Pdu.Wire.{put16, get16, put_regs, get_regs}

-- The bytes of registers, and that they are 16-bit numbers.
abbrev pub regs_bytes : List ℕ → List ℕ
regs_bytes [] = []
regs_bytes (v ∷ vs) = v / 256 ∷ v % 256 ∷ regs_bytes vs

abbrev pub IsWords : List ℕ → Type 0
IsWords [] = Unit {0}
IsWords (v ∷ vs) = (v < 2 ^ 16) × IsWords vs

pub length-regs_bytes : (vs : List ℕ) → length (regs_bytes vs) ≡ length vs * 2
length-regs_bytes [] = refl
length-regs_bytes (v ∷ vs) = omega (arith, length-regs_bytes vs)

pub put16-store : (buf : List ℕ) (off v : ℕ) → v < 2 ^ 16 → put16 buf off v ≡ store buf off (be16 v)
unfolding put16
put16-store buf off v h =
    let hi : u8 (low_bits (shr v 8) 8) ≡ v / 256 = omega arith in
    let lo : u8 (low_bits v 8) ≡ v % 256 = omega arith in
    rw (hi, lo) (store-store buf off (v / 256 ∷ []) (v % 256 ∷ []))

pub get16-be16 :
    (pre post : List ℕ) (off v : ℕ)
    → v < 2 ^ 16
    → off ≡ length pre
    → get16 (pre ++ v / 256 ∷ v % 256 ∷ post) off ≡ some v
unfolding get16
get16-be16 pre post off v h at_off =
    let next : off + 1 ≡ suc (length pre) = omega arith in
    let joined : u16 (bit_or (v / 256 * 2 ^ 8) (v % 256)) ≡ v =
      omega (arith, bit_or_bytes (v / 256) (v % 256) (omega arith) (omega arith)) in
    rw
      (
        next,
        at_off,
        get_elem?-append pre (v / 256) (v % 256 ∷ post),
        get_elem?-append_suc pre (v / 256) (v % 256) post,
        joined,
      )
      refl

store-nil : (buf : List ℕ) (i : ℕ) → i ≤ length buf → store buf i [] ≡ some buf
unfolding store
store-nil buf zero h = refl
store-nil [] (suc i) h = absurd (omega arith)
store-nil (x ∷ buf) (suc i) h = ap (Option.map (◌∷◌ x)) (store-nil buf i (omega arith))

-- Replacing the element behind `front`.
pub write-append :
    (front rest : List ℕ) (i o v : ℕ)
    → i ≡ length front
    → write (front ++ o ∷ rest) i v ≡ some (front ++ v ∷ rest)
write-append front rest i o v e = rw e (
    store-append front (o ∷ rest) (v ∷ [])
    ∙ ap (Option.map (◌++◌ front)) (store-front (o ∷ rest) (v ∷ []) (omega arith)))

-- The loop of `put16` is one store of the bytes of the registers.
pub put_regs-store :
    (vs pre post buf : List ℕ) (off from i : ℕ)
    → IsWords vs
    → from + i ≡ length pre
    → off + (i + length vs) * 2 ≤ length buf
    → put_regs buf off (pre ++ (vs ++ post)) from i (length vs)
      ≡ store buf (off + i * 2) (regs_bytes vs)
unfolding put_regs
put_regs-store [] pre post buf off from i h e fits = sym (store-nil buf (off + i * 2) (omega arith))
put_regs-store (v ∷ vs) pre post buf off from i h e fits =
    let (b, eb, lb) = store-some buf (off + i * 2) (be16 v) (omega arith) in
    let next : off + i * 2 + 2 ≡ off + (i + 1) * 2 = omega arith in
    let glue = store-store buf (off + i * 2) (be16 v) (regs_bytes vs) in
    let more =
      put_regs-store vs (pre ++ v ∷ []) post b off from (i + 1) h.1
        (omega (arith, length-append pre (v ∷ []))) (omega arith) in
    let got : get_elem? (pre ++ (v ∷ (vs ++ post))) (length pre) ≡ some v =
      get_elem?-append pre v (vs ++ post) in
    rw (e, got, put16-store buf (off + i * 2) v h.0, eb)
      (ap (λ l. put_regs b off l from (i + 1) (length vs))
          (sym (append_assoc pre (v ∷ []) (vs ++ post)))
        ∙ more
        ∙ rw (eb, next) at glue)

-- The loop of `get16` puts the registers that the bytes encode behind the front of the array.
pub get_regs-bytes :
    (vs old front rest pre post : List ℕ) (off i : ℕ)
    → IsWords vs
    → length old ≡ length vs
    → i ≡ length front
    → off + i * 2 ≡ length pre
    → get_regs (front ++ (old ++ rest)) (pre ++ (regs_bytes vs ++ post)) off i (length vs)
      ≡ some (front ++ (vs ++ rest))
unfolding get_regs
get_regs-bytes [] [] front rest pre post off i h e at_i at_off = refl
get_regs-bytes [] (o ∷ old) front rest pre post off i h e at_i at_off = absurd (omega arith)
get_regs-bytes (v ∷ vs) [] front rest pre post off i h e at_i at_off = absurd (omega arith)
get_regs-bytes (v ∷ vs) (o ∷ old) front rest pre post off i h e at_i at_off =
    let got : get16 (pre ++ v / 256 ∷ v % 256 ∷ (regs_bytes vs ++ post)) (off + i * 2) ≡ some v =
      get16-be16 pre (regs_bytes vs ++ post) (off + i * 2) v h.0 at_off in
    let put : write (front ++ o ∷ (old ++ rest)) i v ≡ some (front ++ v ∷ (old ++ rest)) =
      write-append front (old ++ rest) i o v at_i in
    rw (got, put)
      (ap₂ (λ a b. get_regs a b off (i + 1) (length vs))
          (sym (append_assoc front (v ∷ []) (old ++ rest)))
          (sym (append_assoc pre (be16 v) (regs_bytes vs ++ post)))
        ∙ get_regs-bytes vs old (front ++ v ∷ []) rest (pre ++ be16 v) post off (i + 1) h.1
            (omega arith) (omega (arith, length-append front (v ∷ [])))
            (omega (arith, length-append pre (be16 v)))
        ∙ ap some (append_assoc front (v ∷ []) (vs ++ rest)))

-- The loop of `put16` that starts behind what is written already.
pub put_regs-behind :
    (head t vs post : List ℕ)
    → IsWords vs
    → length vs * 2 ≤ length t
    → put_regs (head ++ t) (length head) (vs ++ post) 0 0 (length vs)
      ≡ some (head ++ (regs_bytes vs ++ drop (length vs * 2) t))
put_regs-behind head t vs post words room =
    let start : length head + 0 * 2 ≡ length head = omega arith in
    let fits : length (regs_bytes vs) ≤ length t = omega (arith, length-regs_bytes vs) in
    put_regs-store vs [] post (head ++ t) (length head) 0 0 words refl
      (omega (arith, length-append head t))
    ∙ ap (λ k. store (head ++ t) k (regs_bytes vs)) start
    ∙ store-append head t (regs_bytes vs)
    ∙ ap (Option.map (◌++◌ head)) (store-front t (regs_bytes vs) fits)
    ∙ ap (λ k. some (head ++ (regs_bytes vs ++ drop k t))) (length-regs_bytes vs)
