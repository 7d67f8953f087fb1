-- ===== src/Framer/Rtu/Length.antt =====
-- The length that `pa_framer_rtu_unwrap` of src/framer_rtu.c expects.
use pamodbus.Common.{ℕ, suc, ◌≤◌, List}
use pamodbus.Common.{Option, none, some, ◌≡◌, ◌≢◌, arith}
use pamodbus.Common.{length, get_elem?-some}
use pamodbus.Common.{switch-all, ◌&◌}
use pamodbus.Framer.Rtu.{Expected, expect, expect_read, expect_write_multiple}
use pamodbus.Framer.Rtu.{expect_report_id, expect_file_record, expect_read_write, expect_exception}
use pamodbus.Framer.Rtu.{length_cases, expected_len}

-- An expected length is at least that of the smallest frame.
abbrev pub AtLeastFour : Option Expected → Type 0
AtLeastFour o = (e : ℕ) → o ≡ some (expect e) → 4 ≤ e

pub expected_len-ge :
    (fc : ℕ) (bytes : List ℕ) (len : ℕ) → 4 ≤ len → AtLeastFour (expected_len fc bytes len)
unfolding expected_len
expected_len-ge fc bytes len h =
    switch-all AtLeastFour fc (length_cases bytes len) (expect_exception fc)
      (read & read & read & read & fixed & fixed & write & write & fixed & fixed & fixed & fixed
        & report & file & file & fixed & both & fixed & tt)
      other
  where
    fixed : {n : ℕ} → AtLeastFour (some (expect (suc (suc (suc (suc n))))))
    fixed e q = ground arith

    read : AtLeastFour (expect_read bytes len)
    read e q = ground arith

    write : AtLeastFour (expect_write_multiple bytes len)
    write e q = ground arith

    report : AtLeastFour (expect_report_id bytes len)
    report e q = ground arith

    file : AtLeastFour (expect_file_record len)
    file e q = ground arith

    both : AtLeastFour (expect_read_write bytes len)
    both e q = ground arith

    other : AtLeastFour (expect_exception fc)
    other e q = ground arith

-- With the data there, the length is found without a fault.
pub expected_len-some :
    (fc : ℕ) (bytes : List ℕ) (len : ℕ)
    → 4 ≤ len
    → len ≤ length bytes
    → expected_len fc bytes len ≢ none
unfolding expected_len
expected_len-some fc bytes len h fits =
    switch-all (λ o. o ≢ none) fc (length_cases bytes len) (expect_exception fc)
      (read & read & read & read & fixed & fixed & write & write & fixed & fixed & fixed & fixed
        & report & file & file & fixed & both & fixed & tt)
      other
  where
    fixed : {n : ℕ} → some (expect n) ≢ none
    fixed q = cc

    read : expect_read bytes len ≢ none
    read q = ground (arith, get_elem?-some bytes 2 (omega arith))

    write : expect_write_multiple bytes len ≢ none
    write q = ground (arith, get_elem?-some bytes 6)

    report : expect_report_id bytes len ≢ none
    report q = ground (arith, get_elem?-some bytes 2 (omega arith))

    file : expect_file_record len ≢ none
    file q = ground arith

    both : expect_read_write bytes len ≢ none
    both q = ground (arith, get_elem?-some bytes 9)

    other : expect_exception fc ≢ none
    other q = ground arith
