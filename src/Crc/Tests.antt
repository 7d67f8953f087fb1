-- ===== src/Crc/Tests.antt =====
-- The CRC of src/crc16.c on concrete messages.
use pamodbus.Common.{ℕ, List, [], ◌∷◌, ◌++◌, some, ◌≡◌, ◌≢◌, refl, arith, take}
use pamodbus.Crc.{crc16_table, crc_index, crc_step, crc_loop, pa_crc16}
use pamodbus.Crc.Reference.{reference_crc, pa_crc16-reference}
use pamodbus.Crc.Detect.{pa_crc16_detects}

-- The read request of ten holding registers, and the same with the count damaged.
abbrev request : List ℕ
request = 1 ∷ 3 ∷ 0 ∷ 0 ∷ 0 ∷ 10 ∷ []

pa_crc16-request : pa_crc16 request 6 ≡ some 0xcdc5
unfolding pa_crc16 crc_loop crc_step crc_index crc16_table
pa_crc16-request = refl

pa_crc16-reference_example : pa_crc16 request 6 ≡ some (reference_crc 0xffff (take 6 request))
pa_crc16-reference_example = pa_crc16-reference request 6 (omega arith) (omega arith)

pa_crc16_detects_example :
    pa_crc16 ((1 ∷ 3 ∷ []) ++ 0 ∷ 7 ∷ []) 4 ≢ pa_crc16 ((1 ∷ 3 ∷ []) ++ 4 ∷ 7 ∷ []) 4
pa_crc16_detects_example =
    pa_crc16_detects (1 ∷ 3 ∷ []) (7 ∷ []) 0 4 (omega arith) (omega arith) (λ e. omega arith)
