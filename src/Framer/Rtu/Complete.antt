-- ===== src/Framer/Rtu/Complete.antt =====
-- `pa_framer_rtu_unwrap` on the frames that `pa_framer_rtu_wrap` builds, whole or damaged.
use pamodbus.Common.{ℕ, suc, ◌+◌, ◌-◌, ◌*◌, ◌/◌, ◌%◌, ◌^◌, ◌≤◌, ◌<◌, List, ◌∷◌, ◌++◌}
use pamodbus.Common.{
  some, false, true, not, ◌≡◌, ◌≢◌, refl, sym, arith, ap, ◌∙◌, append_assoc, subst,
}
use pamodbus.Common.{ltb, ◌==◌, u16, length, bit_or, if◌then◌else◌}
use pamodbus.Common.{get_elem?-append, get_elem?-append_suc}
use pamodbus.Common.Bits.{bit_or_bytes}
use pamodbus.Crc.Reference.{reference_crc, IsBytes}
use pamodbus.Crc.Detect.{reference_crc-lt, crc_byte_injective}
use pamodbus.Context.{Modbus, pa_err_crc, pa_err_invalid_slave}
use pamodbus.Framer.Outcome.{pdu_at, stopped}
use pamodbus.Framer.Frames.{rtu_adu, crc_bytes}
use pamodbus.Framer.Rtu.Wrap.{crc_of_front}
use pamodbus.Framer.Rtu.{expect, expected_len, wrong_slave, check_frame, proceed, rtu_unwrap}

-- The checks on a body and a trailer, whatever the trailer is.
module _ {W : Type 0} (ctx : Modbus W) (id : ℕ) (pdu : List ℕ) (sum : ℕ) (extra : List ℕ) (len : ℕ)
    (bytes : IsBytes (id ∷ pdu)) (small : sum < 2 ^ 16) (room : length pdu + 3 ≤ len) where
  abbrev body : List ℕ
  body = id ∷ pdu

  abbrev received : List ℕ
  received = body ++ sum % 256 ∷ sum / 256 ∷ extra

  check_frame-trailer : check_frame ctx received len (length pdu + 3) ≡ (
      if not (reference_crc 0xffff body == sum)
      then some (stopped pa_err_crc)
      else (if wrong_slave ctx id
          then some (stopped pa_err_invalid_slave)
          else some (pdu_at 1 (length pdu))))
  unfolding check_frame
  check_frame-trailer =
      let n = length pdu in
      let guard : ltb len (n + 3) ≡ false = ground arith in
      let two : n + 3 - 2 ≡ suc n = omega arith in
      let one : n + 3 - 1 ≡ suc (suc n) = omega arith in
      let left : suc (suc n) - 2 ≡ n = omega arith in
      let joined : u16 (bit_or (sum / 256 * 2 ^ 8) (sum % 256)) ≡ sum =
        omega (arith, bit_or_bytes (sum / 256) (sum % 256) (omega arith) (omega arith)) in
      rw
        (
          guard,
          two,
          get_elem?-append body (sum % 256) (sum / 256 ∷ extra),
          one,
          get_elem?-append_suc body (sum % 256) (sum / 256) extra,
          crc_of_front body (sum % 256 ∷ sum / 256 ∷ extra) bytes,
          joined,
          left,
        )
        refl

module _ {W : Type 0} (ctx : Modbus W) (id fc : ℕ) (payload extra : List ℕ) (len : ℕ)
    (bytes : IsBytes (id ∷ fc ∷ payload)) (room : length payload + 4 ≤ len) where
  unwrap-trailer :
      (sum : ℕ)
      → sum < 2 ^ 16
      → expected_len fc ((id ∷ fc ∷ payload) ++ sum % 256 ∷ sum / 256 ∷ extra) len
        ≡ some (expect (length payload + 4))
      → rtu_unwrap ctx ((id ∷ fc ∷ payload) ++ sum % 256 ∷ sum / 256 ∷ extra) len ≡ (
          if not (reference_crc 0xffff (id ∷ fc ∷ payload) == sum)
          then some (stopped pa_err_crc)
          else (if wrong_slave ctx id
              then some (stopped pa_err_invalid_slave)
              else some (pdu_at 1 (length (fc ∷ payload)))))
  unfolding rtu_unwrap proceed
  unwrap-trailer sum small found =
      let guard : ltb len 4 ≡ false = ground arith in
      let four : length payload + 4 ≡ suc (length payload) + 3 = omega arith in
      rw (guard, found, four)
        (check_frame-trailer ctx id (fc ∷ payload) sum extra len bytes small (omega arith))

  -- A whole frame of a PDU is accepted where its length is recognised, whatever follows it; a frame
  -- for another unit is refused with PA_ERR_INVALID_SLAVE.
  pub rtu_unwrap-adu :
      expected_len fc (rtu_adu id (fc ∷ payload) ++ extra) len ≡ some (expect (length payload + 4))
      → rtu_unwrap ctx (rtu_adu id (fc ∷ payload) ++ extra) len ≡ (
          if wrong_slave ctx id
          then some (stopped pa_err_invalid_slave)
          else some (pdu_at 1 (length (fc ∷ payload))))
  rtu_unwrap-adu found =
      let r = reference_crc 0xffff (id ∷ fc ∷ payload) in
      let regroup = append_assoc (id ∷ fc ∷ payload) (crc_bytes r) extra in
      let same : (r == r) ≡ true = ground arith in
      ap (λ b. rtu_unwrap ctx b len) regroup
      ∙ unwrap-trailer r (reference_crc-lt 0xffff (id ∷ fc ∷ payload) (omega arith) bytes)
          (ap (λ b. expected_len fc b len) (sym regroup) ∙ found)
      ∙ rw same refl

  -- A frame in which one byte before the CRC was damaged, `a` to `b`, is refused with PA_ERR_CRC
  -- where its length is still recognised.
  pub rtu_unwrap-damaged :
      (before after : List ℕ) (a b sum : ℕ)
      → id ∷ fc ∷ payload ≡ before ++ b ∷ after
      → IsBytes (before ++ a ∷ after)
      → a ≢ b
      → sum ≡ reference_crc 0xffff (before ++ a ∷ after)
      → expected_len fc ((id ∷ fc ∷ payload) ++ sum % 256 ∷ sum / 256 ∷ extra) len
        ≡ some (expect (length payload + 4))
      → rtu_unwrap ctx ((id ∷ fc ∷ payload) ++ sum % 256 ∷ sum / 256 ∷ extra) len
        ≡ some (stopped pa_err_crc)
  rtu_unwrap-damaged before after a b sum cut whole ne is_sum found =
      unwrap-trailer sum
        (rw is_sum (reference_crc-lt 0xffff (before ++ a ∷ after) (omega arith) whole)) found
      ∙ rw differs refl
    where
      differ : reference_crc 0xffff (id ∷ fc ∷ payload) ≢ sum
      differ e = ne (
          crc_byte_injective 0xffff before after a b (omega arith) whole (subst IsBytes cut bytes)
            (sym is_sum ∙ sym e ∙ ap (reference_crc 0xffff) cut))

      differs : (reference_crc 0xffff (id ∷ fc ∷ payload) == sum) ≡ false
      differs = ground (arith, differ)
