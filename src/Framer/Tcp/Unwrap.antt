-- ===== src/Framer/Tcp/Unwrap.antt =====
-- What `pa_framer_tcp_unwrap` does with the frames that `pa_framer_tcp_wrap` builds, and with any
-- other data.
use pamodbus.Common.{ℕ, ◌+◌, ◌-◌, ◌*◌, ◌/◌, ◌%◌, ◌^◌, ◌≤◌, ◌<◌, List, ◌∷◌, ◌++◌, none, some}
use pamodbus.Common.{◌≡◌, ◌≢◌, refl, arith, ltb, u16, size_t, pos, bit_or, false}
use pamodbus.Common.{length, get_elem?-some, if◌then◌else◌}
use pamodbus.Common.Bits.{bit_or_bytes}
use pamodbus.Context.{Modbus, pa_err_invalid_slave}
use pamodbus.Framer.Outcome.{pdu_at, stopped}
use pamodbus.Framer.Frames.{tcp_adu}
use pamodbus.Framer.Tcp.{wrong_unit, tcp_unwrap}

module _ {W : Type 0} (ctx : Modbus W) where
  -- The receiver reads no byte behind the data: if the array has the length that is given, then
  -- `pa_framer_tcp_unwrap` makes no access outside it, whatever the bytes are, and returns.
  pub tcp_unwrap-total :
      (bytes : List ℕ) (len : ℕ) → len ≤ length bytes → tcp_unwrap ctx bytes len ≢ none
  unfolding tcp_unwrap
  tcp_unwrap-total bytes len fits q = ground (
    arith,
    get_elem?-some bytes 4,
    get_elem?-some bytes 5,
    get_elem?-some bytes 2,
    get_elem?-some bytes 3,
    get_elem?-some bytes 6,
  )

  -- On the frame of a PDU of `n` bytes the receiver waits for 8 + n bytes, one more than the frame
  -- has; behind that byte the PDU is reported, or the frame refused if it is for another unit.
  pub tcp_unwrap-adu :
      (tid unit : ℕ) (pdu extra : List ℕ) (len : ℕ)
      → 1 ≤ length pdu
      → length pdu + 1 < 2 ^ 16
      → length pdu + 7 ≤ len
      → tcp_unwrap ctx (tcp_adu tid unit pdu ++ extra) len ≡ (
          if ltb len (length pdu + 8)
          then some (stopped (pos (length pdu + 8 - len)))
          else (if wrong_unit ctx unit
              then some (stopped pa_err_invalid_slave)
              else some (pdu_at 7 (length pdu))))
  unfolding tcp_unwrap
  tcp_unwrap-adu tid unit pdu extra len nonempty small enough =
      let n = length pdu in
      let guard : ltb len 8 ≡ false = ground arith in
      let field : u16 (bit_or ((n + 1) / 256 * 2 ^ 8) ((n + 1) % 256)) ≡ n + 1 =
        omega (arith, bit_or_bytes ((n + 1) / 256) ((n + 1) % 256) (omega arith) (omega arith)) in
      let total : 7 + (n + 1) ≡ n + 8 = omega arith in
      let left : size_t (n + 1 + 2 ^ 64 - 1) ≡ n = omega arith in
      rw (guard, field, total, left) refl

  -- A header whose length field is 0 is taken for a frame: the length of the PDU that is reported,
  -- the field less 1 as a `size_t`, is 2 ^ 64 - 1.
  pub tcp_unwrap-zero_length :
      (t0 t1 unit : ℕ) (rest : List ℕ) (len : ℕ)
      → 8 ≤ len
      → wrong_unit ctx unit ≡ false
      → tcp_unwrap ctx (t0 ∷ t1 ∷ 0 ∷ 0 ∷ 0 ∷ 0 ∷ unit ∷ rest) len ≡ some (pdu_at 7 (2 ^ 64 - 1))
  unfolding tcp_unwrap
  tcp_unwrap-zero_length t0 t1 unit rest len enough ok =
      let guard : ltb len 8 ≡ false = ground arith in
      let whole : ltb len 7 ≡ false = ground arith in rw (guard, whole, ok) refl
