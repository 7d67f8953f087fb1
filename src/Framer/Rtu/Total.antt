-- ===== src/Framer/Rtu/Total.antt =====
-- `pa_framer_rtu_unwrap` of src/framer_rtu.c and the bounds of the data.
use pamodbus.Common.{ℕ, ◌-◌, ◌≤◌, List}
use pamodbus.Common.{none, some, false, ◌≡◌, ◌≢◌, refl, arith, ap, ◌∙◌}
use pamodbus.Common.{ltb, length, get_elem?-some}
use native.Mathlib.Decide.{dec_lt}
use pamodbus.Common.{Option-cases, inl, inr}
use pamodbus.Crc.Reference.{pa_crc16-some}
use pamodbus.Context.{Modbus}
use pamodbus.Framer.Rtu.{Expected, expect, return}
use pamodbus.Framer.Rtu.{expected_len, check_frame, proceed, rtu_unwrap}
use pamodbus.Framer.Rtu.Length.{expected_len-ge, expected_len-some}

module _ {W : Type 0} (ctx : Modbus W) where
  check_frame-some :
      (bytes : List ℕ) (len e : ℕ) → 4 ≤ e → len ≤ length bytes → check_frame ctx bytes len e ≢ none
  unfolding check_frame
  check_frame-some bytes len e he fits q = ground (
    arith,
    get_elem?-some bytes (e - 2),
    get_elem?-some bytes (e - 1),
    get_elem?-some bytes 0,
    pa_crc16-some bytes (e - 2),
  )

  proceed-some :
      (bytes : List ℕ) (len : ℕ) (e : Expected)
      → ((k : ℕ) → e ≡ expect k → 4 ≤ k)
      → len ≤ length bytes
      → proceed ctx bytes len e ≢ none
  unfolding proceed
  proceed-some bytes len (return ret) ge fits q = cc
  proceed-some bytes len (expect e) ge fits q = check_frame-some bytes len e (ge e refl) fits q

  -- The receiver reads no byte behind the data: if the array has the length that is given, then
  -- `pa_framer_rtu_unwrap` makes no access outside it, whatever the bytes are, and returns.
  pub rtu_unwrap-total :
      (bytes : List ℕ) (len : ℕ) → len ≤ length bytes → rtu_unwrap ctx bytes len ≢ none
  unfolding rtu_unwrap
  rtu_unwrap-total bytes len fits = elim (dec_lt len 4) [
    | yes short ↦ λ q. ground arith
    | no long ↦ λ q.
        let (fc, getfc) = get_elem?-some bytes 1 (omega arith) in
        let guard : ltb len 4 ≡ false = ground arith in
        let four : 4 ≤ len = omega arith in
        elim (Option-cases (expected_len fc bytes len)) [
          | inl e ↦ expected_len-some fc bytes len four fits e
          | inr (e, found) ↦
              proceed-some bytes len e
                (λ k r. expected_len-ge fc bytes len four k (found ∙ ap some r)) fits
                (rw (guard, getfc, found) at q)
        ]
  ]
