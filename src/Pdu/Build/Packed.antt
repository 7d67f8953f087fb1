-- ===== src/Pdu/Build/Packed.antt =====
-- The loop of `pa_modbus_build_write_multiple_coils` of src/pdu.c as a whole.
use pamodbus.Common.{
  ℕ, zero, suc, ◌+◌, ◌/◌, ◌≤◌, List, [], ◌∷◌, Option, some, none, Bool, true, false,
}
use pamodbus.Common.{
  ◌≡◌, refl, sym, ap, ◌∙◌, subst, arith, inl, inr, length, get_elem?, get_elem?-some, get_or, leb,
  ◌&&◌, ◌==◌, ==_iff, ltb, if◌then◌else◌, Bool-cases, not,
}
use pamodbus.Crc.Reference.{IsBytes}
use pamodbus.Pdu.Build.{set_coils}
use pamodbus.Pdu.Build.Coils.{coil_at, set_coil-CoilSet}

-- The value of a coil that the caller gives.
abbrev pub is_on : List ℕ → ℕ → Bool
is_on values j = not (get_or values j 0 == 0)

-- `j` is one of the `left` numbers from `i` on.
abbrev pub within : ℕ → ℕ → ℕ → Bool
within i left j = leb i j && ltb j (i + left)

within-none : (i j : ℕ) → within i 0 j ≡ false
within-none i j = ground arith

within-first : (i left : ℕ) → (within i (suc left) i ≡ true) × (within (i + 1) left i ≡ false)
within-first i left = (ground arith, ground arith)

within-apart : (i left j : ℕ) → (i == j) ≡ false → within i (suc left) j ≡ within (i + 1) left j
within-apart i left j ne = elim (Bool-cases (within (i + 1) left j)) [
  | inl e ↦ let more : within i (suc left) j ≡ true = ground arith in more ∙ sym e
  | inr e ↦ let more : within i (suc left) j ≡ false = ground arith in more ∙ sym e
]

get_or-some : (xs : List ℕ) (i d : ℕ) {x : ℕ} → get_elem? xs i ≡ some x → get_or xs i d ≡ x
get_or-some [] i d e = cc
get_or-some (x ∷ xs) zero d e = ap (λ o. elim o [ none ↦ x | some b ↦ b ]) e
get_or-some (x ∷ xs) (suc i) d e = get_or-some xs i d e

-- The bits behind the loop, from those behind its first round.
module _ (values : List ℕ) (i left v : ℕ) (got : get_elem? values i ≡ some v) (buf : List ℕ) where
  abbrev shown : ℕ → ℕ → ℕ → Option ℕ → Option ℕ
  shown i left j rest = if within i left j && is_on values j then some 1 else rest

  on_first : is_on values i ≡ not (v == 0)
  on_first = ap (λ x. not (x == 0)) (get_or-some values i 0 got)

  -- At the coil of the round itself.
  off_here :
      (v == 0) ≡ true → shown (i + 1) left i (coil_at buf i) ≡ shown i (suc left) i (coil_at buf i)
  off_here off =
      let (last, gone) = within-first i left in
      ap (λ b. if b && is_on values i then some 1 else coil_at buf i) gone
      ∙ sym (
          ap (λ b. if within i (suc left) i && b then some 1 else coil_at buf i)
            (on_first ∙ ap not off)
          ∙ ap (λ b. if b && false then some 1 else coil_at buf i) last)

  on_here :
      (v == 0) ≡ false
      → shown (i + 1) left i (if i == i then some 1 else coil_at buf i)
        ≡ shown i (suc left) i (coil_at buf i)
  on_here on =
      let (last, gone) = within-first i left in
      let here : (i == i) ≡ true = ground arith in
      ap (λ b. if b && is_on values i then some 1 else (if i == i then some 1 else coil_at buf i))
        gone
      ∙ ap (λ b. if b then some 1 else coil_at buf i) here
      ∙ sym (
          ap (λ b. if within i (suc left) i && b then some 1 else coil_at buf i)
            (on_first ∙ ap not on)
          ∙ ap (λ b. if b && true then some 1 else coil_at buf i) last)

  off_round :
      (j : ℕ)
      → (v == 0) ≡ true
      → shown (i + 1) left j (coil_at buf j) ≡ shown i (suc left) j (coil_at buf j)
  off_round j off = elim (Bool-cases (i == j)) [
    | inl d ↦
        subst (λ j. shown (i + 1) left j (coil_at buf j) ≡ shown i (suc left) j (coil_at buf j))
          ((==_iff i j).0 d) (off_here off)
    | inr d ↦
        ap (λ b. if b && is_on values j then some 1 else coil_at buf j)
          (sym (within-apart i left j d))
  ]

  on_round :
      (j : ℕ)
      → (v == 0) ≡ false
      → shown (i + 1) left j (if i == j then some 1 else coil_at buf j)
        ≡ shown i (suc left) j (coil_at buf j)
  on_round j on = elim (Bool-cases (i == j)) [
    | inl d ↦
        subst
          (λ j.
            shown (i + 1) left j (if i == j then some 1 else coil_at buf j)
            ≡ shown i (suc left) j (coil_at buf j))
          ((==_iff i j).0 d) (on_here on)
    | inr d ↦ rw d (
        ap (λ b. if b && is_on values j then some 1 else coil_at buf j)
          (sym (within-apart i left j d)))
  ]

-- The coils are packed: inside the array of bytes, the loop over the `left` coils from `i` on sets the bit of each
-- coil that the caller gives as on, bit `j % 8` of the byte `6 + j / 8`, and leaves every other bit.
pub set_coils-coil_at :
    (buf values : List ℕ) (i left : ℕ)
    → IsBytes buf
    → i + left ≤ length values
    → 6 + (i + left + 7) / 8 ≤ length buf
    → (b : List ℕ) × (set_coils buf values i left ≡ some b)
      × (length b ≡ length buf)
      × IsBytes b
      × ((j : ℕ)
          → coil_at b j ≡ (if within i left j && is_on values j then some 1 else coil_at buf j))
unfolding set_coils
set_coils-coil_at buf values i zero hb given room =
    (buf, refl, refl, hb, (λ j. rw (within-none i j) refl))
set_coils-coil_at buf values i (suc left) hb given room =
    let (v, got) = get_elem?-some values i (omega arith) in
    elim (Bool-cases (v == 0)) [
      | inl off ↦
          let (b, e, size, bytes, coils) =
            set_coils-coil_at buf values (i + 1) left hb (omega arith) (omega arith) in
          (
            b,
            rw (got, off) e,
            size,
            bytes,
            (λ j. coils j ∙ off_round values i left v got buf j off),
          )
      | inr on ↦
          let c = set_coil-CoilSet buf i (omega arith) hb in
          let (b, e, size, bytes, coils) =
            set_coils-coil_at c.after values (i + 1) left c.bytes (omega arith)
              (omega (arith, c.size)) in
          (
            b,
            rw (got, on, c.set) e,
            size ∙ c.size,
            bytes,
            (λ j.
                coils j
                ∙ ap (λ o. if within (i + 1) left j && is_on values j then some 1 else o)
                    (c.coils j)
                ∙ on_round values i left v got buf j on),
          )
    ]
