-- ===== src/Framer/Rtu/Accept.antt =====
-- What `pa_framer_rtu_unwrap` accepts.
use pamodbus.Common.{ℕ, zero, suc, ◌+◌, ◌-◌, ◌*◌, ◌^◌, ◌≤◌, ◌<◌, List, [], ◌∷◌, ◌++◌}
use pamodbus.Common.{some, false, ◌≡◌, refl, sym, arith, ap, ap₂, ◌∙◌, append_assoc}
use pamodbus.Common.{
  ltb, ◌==◌, not, else_branch, u16, subst, length, length-take, take, get_elem?, get_elem?-lt,
  take-suc,
}
use pamodbus.Common.{>>=-some, bit_or}
use pamodbus.Common.Bits.{bit_or_bytes}
use pamodbus.Crc.{pa_crc16}
use pamodbus.Crc.Reference.{reference_crc, IsBytes, pa_crc16-reference}
use pamodbus.Context.{Modbus}
use pamodbus.Framer.Outcome.{pdu_at, stopped-ne-pdu_at}
use pamodbus.Framer.Frames.{rtu_adu}
use pamodbus.Framer.Rtu.{Expected, expect, return}
use pamodbus.Framer.Rtu.{expected_len, wrong_slave, check_frame, proceed, rtu_unwrap}
use pamodbus.Framer.Rtu.Length.{expected_len-ge}

-- A byte of an array of bytes.
IsBytes-get :
    (bytes : List ℕ) (i : ℕ) {b : ℕ} → IsBytes bytes → get_elem? bytes i ≡ some b → b < 256
IsBytes-get [] i h e = cc
IsBytes-get (x ∷ xs) zero h e = ground arith
IsBytes-get (x ∷ xs) (suc i) h e = IsBytes-get xs i h.1 e

pub IsBytes-take : (n : ℕ) (bytes : List ℕ) → IsBytes bytes → IsBytes (take n bytes)
IsBytes-take zero bytes h = tt
IsBytes-take (suc n) [] h = tt
IsBytes-take (suc n) (x ∷ xs) h = (h.0, IsBytes-take n xs h.1)

some_eq : {a b : ℕ} → some a ≡ some b → a ≡ b
some_eq e = cc

-- Bytes that are followed by their CRC are a frame.
frame_of_crc :
    (x : ℕ) (xs : List ℕ) (k : ℕ) {lo hi : ℕ}
    → IsBytes (x ∷ xs)
    → get_elem? xs k ≡ some lo
    → get_elem? xs (suc k) ≡ some hi
    → pa_crc16 (x ∷ xs) (suc k) ≡ some (u16 (bit_or (hi * 2 ^ 8) lo))
    → take (suc (suc (suc k))) (x ∷ xs) ≡ rtu_adu x (take k xs)
frame_of_crc x xs k {lo} {hi} hb getlo gethi calc =
    ap (◌∷◌ x) (take-suc xs (suc k) gethi ∙ ap (λ l. l ++ hi ∷ []) (take-suc xs k getlo))
    ∙ ap (◌∷◌ x) (append_assoc (take k xs) (lo ∷ []) (hi ∷ []))
    ∙ ap₂ (λ a b. x ∷ (take k xs ++ a ∷ b ∷ [])) (omega (arith, crc, hlo, hhi))
        (omega (arith, crc, hlo, hhi))
  where
    hlo : lo < 256
    hlo = IsBytes-get xs k hb.1 getlo

    hhi : hi < 256
    hhi = IsBytes-get xs (suc k) hb.1 gethi

    whole : some (reference_crc 0xffff (x ∷ take k xs)) ≡ some (u16 (bit_or (hi * 2 ^ 8) lo))
    whole =
        sym (
          pa_crc16-reference (x ∷ xs) (suc k) (IsBytes-take (suc k) (x ∷ xs) hb)
            (omega (arith, get_elem?-lt xs k getlo)))
        ∙ calc

    crc : reference_crc 0xffff (x ∷ take k xs) ≡ hi * 256 + lo
    crc = some_eq whole ∙ omega (arith, bit_or_bytes hi lo hhi hlo, hhi, hlo)

-- The data starts with a whole RTU frame, and the PDU of it is reported.
pub record IsAccepted {W : Type 0} (ctx : Modbus W) (bytes : List ℕ) (len off n : ℕ) : Type 0 where
  pub id : ℕ
  pub pdu : List ℕ
  pub frame : take (n + 3) bytes ≡ rtu_adu id pdu
  pub count : length pdu ≡ n
  pub start : off ≡ 1
  pub nonempty : 1 ≤ n
  pub inside : n + 3 ≤ len
  pub unit : wrong_slave ctx id ≡ false

module _ {W : Type 0} (ctx : Modbus W) where
  -- The facts that the tests of the code establish.
  abbrev Checked : List ℕ → ℕ → ℕ → ℕ → Type 0
  Checked bytes len e off =
      (lo : ℕ) × (hi : ℕ) × (id : ℕ) × (e ≤ len)
      × (get_elem? bytes (e - 2) ≡ some lo)
      × (get_elem? bytes (e - 1) ≡ some hi)
      × (pa_crc16 bytes (e - 2) ≡ some (u16 (bit_or (hi * 2 ^ 8) lo)))
      × (get_elem? bytes 0 ≡ some id)
      × (wrong_slave ctx id ≡ false)
      × (off ≡ 1)

  check_frame-facts :
      (bytes : List ℕ) (len e : ℕ) {off n : ℕ}
      → check_frame ctx bytes len e ≡ some (pdu_at off n)
      → Checked bytes len e off × (n ≡ e - 1 - 2)
  unfolding check_frame
  check_frame-facts bytes len e h =
      let (room, h1) = else_branch (ltb len e) _ _ stopped-ne-pdu_at h in
      let (lo, getlo, h2) = >>=-some (get_elem? bytes (e - 2)) _ h1 in
      let (hi, gethi, h3) = >>=-some (get_elem? bytes (e - 1)) _ h2 in
      let (crc, calc, h4) = >>=-some (pa_crc16 bytes (e - 2)) _ h3 in
      let (same, h5) =
        else_branch (not (crc == u16 (bit_or (hi * 2 ^ 8) lo))) _ _ stopped-ne-pdu_at h4 in
      let (id, getid, h6) = >>=-some (get_elem? bytes 0) _ h5 in
      let (unit, h7) = else_branch (wrong_slave ctx id) _ _ stopped-ne-pdu_at h6 in
      let equal : crc ≡ u16 (bit_or (hi * 2 ^ 8) lo) = ground arith in
      (
        (lo, hi, id, ground arith, getlo, gethi, calc ∙ ap some equal, getid, unit, ground arith),
        ground arith,
      )

  check_frame-IsAccepted :
      (bytes : List ℕ) (len e : ℕ) {off n : ℕ}
      → IsBytes bytes
      → 4 ≤ e
      → check_frame ctx bytes len e ≡ some (pdu_at off n)
      → IsAccepted ctx bytes len off n
  check_frame-IsAccepted [] len e hb he h = let (c, m) = check_frame-facts [] len e h in cc (c.4)
  check_frame-IsAccepted (x ∷ xs) len (suc (suc (suc k))) {off} {n} hb he h =
      let (c, m) = check_frame-facts (x ∷ xs) len (suc (suc (suc k))) h in
      let (lo, hi, id, room, getlo, gethi, calc, getid, unit, start) = c in
      let minus_two : suc (suc (suc k)) - 2 ≡ suc k = omega arith in
      let minus_one : suc (suc (suc k)) - 1 ≡ suc (suc k) = omega arith in
      record {
        id = x;
        pdu = take k xs;
        frame =
            let three : n + 3 ≡ suc (suc (suc k)) = omega arith in
            rw three (
              frame_of_crc x xs k hb (rw minus_two at getlo) (rw minus_one at gethi)
                (rw minus_two at calc));
        count = omega (arith, length-take k xs, get_elem?-lt xs k (rw minus_two at getlo));
        start = start;
        nonempty = omega arith;
        inside = omega arith;
        unit = subst (λ i. wrong_slave ctx i ≡ false) (sym (some_eq getid)) unit;
      }
  check_frame-IsAccepted (x ∷ xs) len zero hb he h = absurd (omega arith)
  check_frame-IsAccepted (x ∷ xs) len (suc zero) hb he h = absurd (omega arith)
  check_frame-IsAccepted (x ∷ xs) len (suc (suc zero)) hb he h = absurd (omega arith)

  proceed-IsAccepted :
      (bytes : List ℕ) (len : ℕ) (e : Expected) {off n : ℕ}
      → IsBytes bytes
      → ((k : ℕ) → e ≡ expect k → 4 ≤ k)
      → proceed ctx bytes len e ≡ some (pdu_at off n)
      → IsAccepted ctx bytes len off n
  unfolding proceed
  proceed-IsAccepted bytes len (return ret) hb ge h = absurd (stopped-ne-pdu_at h)
  proceed-IsAccepted bytes len (expect e) hb ge h =
      check_frame-IsAccepted bytes len e hb (ge e refl) h

  -- What the receiver accepts is a frame: if `pa_framer_rtu_unwrap` returns PA_OK on an array of
  -- bytes, then the array starts with a slave address, a PDU of the reported length and the CRC of
  -- both, all within the length given, and the address is the context's, its discovery address, or
  -- any address if the context is promiscuous.
  pub rtu_unwrap-IsAccepted :
      (bytes : List ℕ) (len : ℕ) {off n : ℕ}
      → IsBytes bytes
      → rtu_unwrap ctx bytes len ≡ some (pdu_at off n)
      → IsAccepted ctx bytes len off n
  unfolding rtu_unwrap
  rtu_unwrap-IsAccepted bytes len {off} {n} hb h =
      let (enough, h1) = else_branch (ltb len 4) _ _ stopped-ne-pdu_at h in
      let (fc, getfc, h2) = >>=-some (get_elem? bytes 1) _ h1 in
      let (e, found, h3) = >>=-some (expected_len fc bytes len) _ h2 in
      proceed-IsAccepted bytes len e hb
        (λ k q. expected_len-ge fc bytes len (ground arith) k (found ∙ ap some q)) h3

  proceed-inside :
      (bytes : List ℕ) (len : ℕ) (e : Expected) {off n : ℕ}
      → ((k : ℕ) → e ≡ expect k → 4 ≤ k)
      → proceed ctx bytes len e ≡ some (pdu_at off n)
      → (off ≡ 1) × (n + 3 ≤ len)
  unfolding proceed
  proceed-inside bytes len (return ret) ge h = absurd (stopped-ne-pdu_at h)
  proceed-inside bytes len (expect e) ge h =
      let (c, m) = check_frame-facts bytes len e h in
      let (lo, hi, id, room, getlo, gethi, calc, getid, unit, start) = c in
      (start, omega (arith, ge e refl))

  -- The PDU that is reported lies inside the data, with the trailer behind it.
  pub rtu_unwrap-inside :
      (bytes : List ℕ) (len : ℕ) {off n : ℕ}
      → rtu_unwrap ctx bytes len ≡ some (pdu_at off n)
      → (off ≡ 1) × (n + 3 ≤ len)
  unfolding rtu_unwrap
  rtu_unwrap-inside bytes len h =
      let (enough, h1) = else_branch (ltb len 4) _ _ stopped-ne-pdu_at h in
      let (fc, getfc, h2) = >>=-some (get_elem? bytes 1) _ h1 in
      let (e, found, h3) = >>=-some (expected_len fc bytes len) _ h2 in
      proceed-inside bytes len e
        (λ k q. expected_len-ge fc bytes len (ground arith) k (found ∙ ap some q)) h3
