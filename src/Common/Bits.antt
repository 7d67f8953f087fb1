-- ===== src/Common/Bits.antt =====
-- The bit operations at variables: what `|` of two bytes and the masks mean as arithmetic.
use Prim.Native.Nat.{ℕ, zero, suc, ◌+◌, ◌*◌, ◌/◌, ◌%◌, ◌^◌, ◌≤◌, ◌<◌, bit_or, bit_xor}
use Prim.Native.Nat.{digits, bitwise, differ, bit_xor-bitwise}
use mathlib.Core.Path.{◌≡◌, refl, sym, ap, ap₂, ◌∙◌}
use mathlib.Core.Bool.{Bool, true, ◌&&◌}
use native.Mathlib.Omega.{arith}
use native.Mathlib.Nat.{pow-suc}
use pamodbus.Common.Tests.{◌==◌, ==_iff}

-- A test that holds of every number below `n`.
unfoldable pub all_below : ℕ → (ℕ → Bool) → Bool
all_below zero p = true
all_below (suc n) p = p n && all_below n p

pub all_below-lt : (n : ℕ) (p : ℕ → Bool) (x : ℕ) → all_below n p ≡ true → x < n → p x ≡ true
unfolding all_below
all_below-lt zero p x h lt = absurd (omega arith)
all_below-lt (suc n) p x h lt = ground (arith, all_below-lt n p x)

join_table : all_below 256 (λ h. all_below 256 (λ l. bit_or (h * 256) l == h * 256 + l)) ≡ true
unfolding all_below
join_table = refl

-- `(h << 8) | l` of two bytes.
pub bit_or_bytes : (h l : ℕ) → h < 256 → l < 256 → bit_or (h * 2 ^ 8) l ≡ h * 256 + l
bit_or_bytes h l hh hl = (==_iff _ _).0 (
    all_below-lt 256 (λ l. bit_or (h * 256) l == h * 256 + l) l
      (all_below-lt 256 (λ h. all_below 256 (λ l. bit_or (h * 256) l == h * 256 + l)) h join_table
        hh)
      hl)

-- The count of digits of the recursion does not matter, once it is enough.
module _ (z : ℕ → ℕ) (f : ℕ → ℕ → ℕ) where
  digits-bitwise : (n a b : ℕ) → a ≤ n → digits z f n a b ≡ bitwise z f a b
  digits-bitwise n a b h = same n a a b h (omega arith)
    where
      same : (n m a b : ℕ) → a ≤ n → a ≤ m → digits z f n a b ≡ digits z f m a b
      same zero zero a b p q = refl
      same zero (suc m) zero b p q = refl
      same (suc n) zero zero b p q = refl
      same (suc n) (suc m) zero b p q = refl
      same zero m (suc a) b p q = absurd (omega arith)
      same (suc n) zero (suc a) b p q = absurd (omega arith)
      same (suc n) (suc m) (suc a) b p q =
          ap (λ r. r * 2 + f (suc a % 2) (b % 2))
            (same n m (suc a / 2) (b / 2) (omega arith) (omega arith))

-- Exclusive or, digit by digit.
differ-lt : (x y : ℕ) → x < 2 → y < 2 → differ x y < 2
differ-lt zero y p q = q
differ-lt (suc x) zero p q = p
differ-lt (suc x) (suc y) p q = differ-lt x y (omega arith) (omega arith)

pub bit_xor_step : (a b : ℕ) → bit_xor a b ≡ bit_xor (a / 2) (b / 2) * 2 + differ (a % 2) (b % 2)
bit_xor_step zero b = omega (arith, bit_xor-bitwise 0 b, bit_xor-bitwise 0 (b / 2))
bit_xor_step (suc a) b = omega (
  arith,
  bit_xor-bitwise (suc a) b,
  bit_xor-bitwise (suc a / 2) (b / 2),
  digits-bitwise (λ c. c) differ a (suc a / 2) (b / 2) (omega arith),
)

pub bit_xor-half : (a b : ℕ) → bit_xor a b / 2 ≡ bit_xor (a / 2) (b / 2)
bit_xor-half a b =
    omega (arith, bit_xor_step a b, differ-lt (a % 2) (b % 2) (omega arith) (omega arith))

differ_cancel :
    (x y : ℕ) → x < 2 → y < 2 → (differ x (differ x y) ≡ y) × (differ (differ x y) y ≡ x)
differ_cancel zero zero p q = (refl, refl)
differ_cancel zero (suc zero) p q = (refl, refl)
differ_cancel zero (suc (suc y)) p q = absurd (omega arith)
differ_cancel (suc zero) zero p q = (refl, refl)
differ_cancel (suc zero) (suc zero) p q = (refl, refl)
differ_cancel (suc zero) (suc (suc y)) p q = absurd (omega arith)
differ_cancel (suc (suc x)) y p q = absurd (omega arith)

bit_xor_cancel_below :
    (n a b : ℕ) → a ≤ n → b ≤ n → (bit_xor a (bit_xor a b) ≡ b) × (bit_xor (bit_xor a b) b ≡ a)
bit_xor_cancel_below zero zero zero p q = (refl, refl)
bit_xor_cancel_below zero zero (suc b) p q = absurd (omega arith)
bit_xor_cancel_below zero (suc a) b p q = absurd (omega arith)
bit_xor_cancel_below (suc n) a b p q =
    let (left, right) = bit_xor_cancel_below n (a / 2) (b / 2) (omega arith) (omega arith) in
    let (l, r) = differ_cancel (a % 2) (b % 2) (omega arith) (omega arith) in
    let d = differ-lt (a % 2) (b % 2) (omega arith) (omega arith) in
    let digit : bit_xor a b % 2 ≡ differ (a % 2) (b % 2) = omega (arith, bit_xor_step a b) in
    (
      bit_xor_step a (bit_xor a b) ∙ rw (bit_xor-half a b, digit, left, l) (omega arith),
      bit_xor_step (bit_xor a b) b ∙ rw (bit_xor-half a b, digit, right, r) (omega arith),
    )

-- Exclusive or with the same number twice cancels, on either side.
pub bit_xor_cancel_left : (a b : ℕ) → bit_xor a (bit_xor a b) ≡ b
bit_xor_cancel_left a b = (bit_xor_cancel_below (a + b) a b (omega arith) (omega arith)).0

pub bit_xor_cancel_right : (a b : ℕ) → bit_xor (bit_xor a b) b ≡ a
bit_xor_cancel_right a b = (bit_xor_cancel_below (a + b) a b (omega arith) (omega arith)).1

-- Exclusive or stays within a width.
pub bit_xor-lt : (k a b : ℕ) → a < 2 ^ k → b < 2 ^ k → bit_xor a b < 2 ^ k
bit_xor-lt zero zero zero p q = omega arith
bit_xor-lt zero zero (suc b) p q = absurd (omega arith)
bit_xor-lt zero (suc a) b p q = absurd (omega arith)
bit_xor-lt (suc k) a b p q = omega (
  arith,
  bit_xor_step a b,
  pow-suc 2 k,
  differ-lt (a % 2) (b % 2) (omega arith) (omega arith),
  bit_xor-lt k (a / 2) (b / 2) (omega (arith, pow-suc 2 k)) (omega (arith, pow-suc 2 k)),
)

zero-bit_xor : (b : ℕ) → bit_xor 0 b ≡ b
zero-bit_xor b = bit_xor-bitwise 0 b

pub bit_xor-zero : (a : ℕ) → bit_xor a 0 ≡ a
bit_xor-zero a = ap (bit_xor a) (sym same) ∙ bit_xor_cancel_left a a
  where
    same : bit_xor a a ≡ 0
    same = ap (λ x. bit_xor x a) (sym (zero-bit_xor a)) ∙ bit_xor_cancel_right 0 a

bit_xor-quarter : (a b : ℕ) → bit_xor a b / 4 ≡ bit_xor (a / 4) (b / 4)
bit_xor-quarter a b =
    omega arith
    ∙ ap (λ x. x / 2) (bit_xor-half a b)
    ∙ bit_xor-half (a / 2) (b / 2)
    ∙ ap₂ bit_xor (omega arith) (omega arith)

bit_xor-sixteenth : (a b : ℕ) → bit_xor a b / 16 ≡ bit_xor (a / 16) (b / 16)
bit_xor-sixteenth a b =
    omega arith
    ∙ ap (λ x. x / 4) (bit_xor-quarter a b)
    ∙ bit_xor-quarter (a / 4) (b / 4)
    ∙ ap₂ bit_xor (omega arith) (omega arith)

-- The high byte of an exclusive or with a byte is the high byte.
pub bit_xor-high : (a b : ℕ) → b < 256 → bit_xor a b / 256 ≡ a / 256
bit_xor-high a b h =
    omega arith
    ∙ ap (λ x. x / 16) (bit_xor-sixteenth a b)
    ∙ bit_xor-sixteenth (a / 16) (b / 16)
    ∙ ap₂ bit_xor (omega arith) (omega arith)
    ∙ bit_xor-zero (a / 256)
