-- ===== src/Context/Valid.antt =====
-- The representation invariant of the context of src/pamodbus_internal.h, and the accessors of
-- src/pamodbus.c under it.
use pamodbus.Common.{ℕ, ◌*◌, ◌/◌, ◌%◌, ◌≤◌, ◌<◌, Option, some, ◌≡◌, refl, arith}
use pamodbus.Common.{length, get_elem?-some, leb, if◌then◌else◌, Bool, true, false}
use pamodbus.Common.{◌>>=◌, ℤ}
use native.Mathlib.Decide.{dec_lt}
use pamodbus.Common.{low_bits, shr}
use pamodbus.Context.{Modbus, Result, init, coil_bytes, reg_words}
use pamodbus.Context.Access.{get_coil, get_register}

pub record IsValid {W : Type 0} (ctx : Modbus W) : Type 0 where
  pub coils : length ctx.last_coil_data ≡ coil_bytes
  pub regs : length ctx.last_reg_data ≡ reg_words
  pub coil_count : ctx.last_coil_count ≤ 8 * coil_bytes
  pub reg_count : ctx.last_reg_count ≤ reg_words
  pub slave_coils : length ctx.slave_coil_data ≡ coil_bytes
  pub slave_regs : length ctx.slave_reg_data ≡ reg_words
  pub slave_reg_count : ctx.slave_reg_count ≤ reg_words

-- The operation returns, and leaves a valid context.
pub data Keeps {W : Type 0} : Result W → Type 0 where
  keeps : {ret : ℤ} {ctx : Modbus W} → IsValid ctx → Keeps (some (ret, ctx))

pub Keeps-if :
    {W : Type 0} (b : Bool) {x y : Result W}
    → (b ≡ true → Keeps x)
    → (b ≡ false → Keeps y)
    → Keeps (if b then x else y)
Keeps-if true f g = f refl
Keeps-if false f g = g refl

pub Keeps-bind :
    {W A : Type 0} {o : Option A} (f : A → Result W) {a : A}
    → o ≡ some a
    → Keeps (f a)
    → Keeps (o >>= f)
Keeps-bind f e k = rw e k

pub init-IsValid : {W : Type 0} (tid : ℕ) (w : W) → IsValid (init tid w)
unfolding init
init-IsValid tid w = omega arith

module _ {W : Type 0} (ctx : Modbus W) (v : IsValid ctx) (idx : ℕ) where
  get_coil_total :
      (c : ℕ) × (get_coil ctx idx ≡ some c) × (c < 2) × (ctx.last_coil_count ≤ idx → c ≡ 0)
  unfolding get_coil
  get_coil_total = elim (dec_lt idx ctx.last_coil_count) [
    | yes p ↦
        let (byte, e) = get_elem?-some ctx.last_coil_data (idx / 8) (omega (arith, v)) in
        let guard : leb ctx.last_coil_count idx ≡ false = ground arith in
        (
          low_bits (shr byte (idx % 8)) 1,
          rw (guard, e) refl,
          omega arith,
          (λ q. absurd (omega arith)),
        )
    | no p ↦
        let guard : leb ctx.last_coil_count idx ≡ true = ground arith in
        (0, rw guard refl, omega arith, (λ q. refl))
  ]

  get_register_total :
      (r : ℕ) × (get_register ctx idx ≡ some r) × (ctx.last_reg_count ≤ idx → r ≡ 0)
  unfolding get_register
  get_register_total = elim (dec_lt idx ctx.last_reg_count) [
    | yes p ↦
        let (r, e) = get_elem?-some ctx.last_reg_data idx (omega (arith, v)) in
        let guard : leb ctx.last_reg_count idx ≡ false = ground arith in
        (r, rw guard e, (λ q. absurd (omega arith)))
    | no p ↦
        let guard : leb ctx.last_reg_count idx ≡ true = ground arith in
        (0, rw guard refl, (λ q. refl))
  ]

  -- The accessors `pa_modbus_get_coil` and `pa_modbus_get_register` read inside the arrays of a
  -- valid context for every index, and give 0 from the count on; a coil is 0 or 1.
  pub accessors_total :
      ((c : ℕ) × (get_coil ctx idx ≡ some c) × (c < 2) × (ctx.last_coil_count ≤ idx → c ≡ 0))
      × ((r : ℕ) × (get_register ctx idx ≡ some r) × (ctx.last_reg_count ≤ idx → r ≡ 0))
  accessors_total = (get_coil_total, get_register_total)
