-- ===== src/Pdu/Build/Payload.antt =====
-- The PDUs of the requests that the builders of src/pdu.c write.
use pamodbus.Common.{
  ℕ, ◌+◌, ◌-◌, ◌*◌, ◌/◌, ◌%◌, ◌^◌, ◌≤◌, ◌<◌, List, [], ◌∷◌, ◌++◌, some, Option, false,
}
use pamodbus.Common.{◌≡◌, refl, arith, ap, ◌∙◌, length, drop, drop-drop, length-drop, deref, ltb}
use pamodbus.Common.{store, write, ◌>>=◌, u8, u16, shr, low_bits}
use pamodbus.Context.{Modbus}
use pamodbus.Pdu.Wire.{put16, put_regs}
use pamodbus.Pdu.Wire.Layout.{regs_bytes, IsWords, put_regs-behind}
use pamodbus.Pdu.Build.{finish_with, build_write_multiple_registers}

-- A function code and two numbers: the reads, and the writes of one coil or register.
abbrev pub fixed_pdu : ℕ → ℕ → ℕ → List ℕ
fixed_pdu fc a b = fc ∷ a / 256 ∷ a % 256 ∷ b / 256 ∷ b % 256 ∷ []

-- FC 10: the address, the count, the count of bytes, the registers.
abbrev pub registers_pdu : ℕ → List ℕ → List ℕ
registers_pdu addr vs =
    0x10
    ∷ addr / 256
    ∷ addr % 256
    ∷ length vs / 256
    ∷ length vs % 256
    ∷ length vs * 2
    ∷ regs_bytes vs

high_byte : (v : ℕ) → v < 2 ^ 16 → u8 (low_bits (shr v 8) 8) ≡ v / 256
high_byte v h = omega arith

low_byte : (v : ℕ) → u8 (low_bits v 8) ≡ v % 256
low_byte v = omega arith

pub write_fixed :
    {B : Type 0} (fc a b : ℕ) (mem : List ℕ) (k : List ℕ → Option B)
    → 5 ≤ length mem
    → a < 2 ^ 16
    → b < 2 ^ 16
    → (write mem 0 fc >>= λ buf. put16 buf 1 a >>= λ buf. put16 buf 3 b >>= k)
      ≡ k (fixed_pdu fc a b ++ drop 5 mem)
unfolding store put16
write_fixed fc a b (x0 ∷ x1 ∷ x2 ∷ x3 ∷ x4 ∷ mem) k room ha hb =
    rw (high_byte a ha, low_byte a, high_byte b hb, low_byte b) refl
write_fixed fc a b [] k room ha hb = absurd (omega arith)
write_fixed fc a b (x0 ∷ []) k room ha hb = absurd (omega arith)
write_fixed fc a b (x0 ∷ x1 ∷ []) k room ha hb = absurd (omega arith)
write_fixed fc a b (x0 ∷ x1 ∷ x2 ∷ []) k room ha hb = absurd (omega arith)
write_fixed fc a b (x0 ∷ x1 ∷ x2 ∷ x3 ∷ []) k room ha hb = absurd (omega arith)

write_byte :
    {B : Type 0} (n : ℕ) (x0 x1 x2 x3 x4 : ℕ) (mem : List ℕ) (k : List ℕ → Option B)
    → 1 ≤ length mem
    → (write ((x0 ∷ x1 ∷ x2 ∷ x3 ∷ x4 ∷ []) ++ mem) 5 n >>= k)
      ≡ k ((x0 ∷ x1 ∷ x2 ∷ x3 ∷ x4 ∷ n ∷ []) ++ drop 1 mem)
unfolding store
write_byte n x0 x1 x2 x3 x4 [] k room = absurd (omega arith)
write_byte n x0 x1 x2 x3 x4 (y ∷ mem) k room = refl

module _ {W : Type 0} (ctx : Modbus W) (addr : ℕ) (vs post mem : List ℕ)
    (holds : deref ctx.txbuf ≡ mem) (words : IsWords vs) (small : addr < 2 ^ 16)
    (some_regs : 1 ≤ length vs) (few : length vs ≤ 123) (room : 6 + length vs * 2 ≤ length mem)
    (size : 6 + length vs * 2 ≤ ctx.txbuf_size) where
  abbrev head : List ℕ
  head = 0x10 ∷ addr / 256 ∷ addr % 256 ∷ length vs / 256 ∷ length vs % 256 ∷ length vs * 2 ∷ []

  -- The loop over the registers writes them behind the head.
  put_values :
      put_regs (head ++ drop 1 (drop 5 mem)) 6 (vs ++ post) 0 0 (length vs)
      ≡ some (registers_pdu addr vs ++ drop (6 + length vs * 2) mem)
  put_values =
      let t = drop 1 (drop 5 mem) in
      let left : length t ≡ length mem - 5 - 1 =
        omega (arith, length-drop 1 (drop 5 mem), length-drop 5 mem) in
      let behind : drop (length vs * 2) t ≡ drop (6 + length vs * 2) mem =
        drop-drop (length vs * 2) 1 (drop 5 mem)
        ∙ drop-drop (1 + length vs * 2) 5 mem
        ∙ ap (λ k. drop k mem) (omega arith) in
      put_regs-behind head t vs post words (omega arith)
      ∙ ap (λ d. some (head ++ (regs_bytes vs ++ d))) behind

  pub build_write_multiple_registers-pdu :
      build_write_multiple_registers ctx addr (vs ++ post) (length vs)
      ≡ finish_with ctx (registers_pdu addr vs ++ drop (6 + length vs * 2) mem) (6 + length vs * 2)
  unfolding build_write_multiple_registers
  build_write_multiple_registers-pdu =
      let n = length vs in
      let low : ltb n 1 ≡ false = ground arith in
      let high : ltb 123 n ≡ false = ground arith in
      let count : u16 (n * 2) ≡ n * 2 = omega arith in
      let byte : u8 (n * 2) ≡ n * 2 = omega arith in
      let fits : ltb ctx.txbuf_size (6 + n * 2) ≡ false = ground arith in
      rw (low, high, count, fits, byte, holds)
        (write_fixed 0x10 addr n mem _ (omega arith) small (omega arith)
          ∙ write_byte (n * 2) 0x10 (addr / 256) (addr % 256) (n / 256) (n % 256) (drop 5 mem) _
              (omega (arith, length-drop 5 mem))
          ∙ ap (λ o. o >>= λ buf. finish_with ctx buf (6 + n * 2)) put_values)
