-- ===== src/Pdu/Wire.antt =====
-- src/pdu.c: the helpers on 16-bit numbers in buffers, and the loops over them.
pub mod Access
pub mod Layout
use pamodbus.Common.{ℕ, zero, suc, ◌+◌, ◌*◌, ◌^◌, List, Option, some}
use pamodbus.Common.{u8, u16, shr, low_bits, bit_or, get_elem?, write, ◌>>=◌}

-- `put16(buf + off, val)`
unfoldable pub put16 : List ℕ → ℕ → ℕ → Option (List ℕ)
put16 buf off val = do
  buf ← write buf off (u8 (low_bits (shr val 8) 8))
  write buf (off + 1) (u8 (low_bits val 8))

-- `get16(buf + off)`
unfoldable pub get16 : List ℕ → ℕ → Option ℕ
get16 buf off = do
  hi ← get_elem? buf off
  lo ← get_elem? buf (off + 1)
  some (u16 (bit_or (hi * 2 ^ 8) lo))

-- `for (; i < n; i++) put16(buf + off + i * 2, values[from + i])`, with `left` rounds left.
unfoldable pub put_regs : List ℕ → ℕ → List ℕ → ℕ → ℕ → ℕ → Option (List ℕ)
unfolding put16
put_regs buf off values from i zero = some buf
put_regs buf off values from i (suc left) = do
  v ← get_elem? values (from + i)
  buf ← put16 buf (off + i * 2) v
  put_regs buf off values from (i + 1) left

-- `for (; i < n; i++) regs[i] = get16(pdu + off + i * 2)`, with `left` rounds left.
unfoldable pub get_regs : List ℕ → List ℕ → ℕ → ℕ → ℕ → Option (List ℕ)
unfolding get16
get_regs regs pdu off i zero = some regs
get_regs regs pdu off i (suc left) = do
  v ← get16 pdu (off + i * 2)
  regs ← write regs i v
  get_regs regs pdu off (i + 1) left
