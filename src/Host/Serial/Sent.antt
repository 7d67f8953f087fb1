-- ===== src/Host/Serial/Sent.antt =====
-- `ser_send` of host/pa_serial.c: what it hands to the device, and that its loop ends.
use pamodbus.Common.{
  ℕ, zero, suc, ◌+◌, ◌-◌, ◌^◌, ◌≤◌, ◌<◌, List, ◌++◌, append_assoc, append-nil, [], Option, some,
  true, false,
}
use pamodbus.Common.{◌≡◌, refl, sym, ap, subst, ◌∙◌, ◌≢◌, inl, inr, arith, ℤ, pos, negsuc, size_t}
use pamodbus.Common.{
  length, take, drop, length-take, length-drop, take-drop, drop-drop, drop-take, drop-all,
  take-append-drop,
}
use pamodbus.Common.{ltb, ◌==◌, Bool-cases, ==_iff}
use pamodbus.Host.Posix.{Posix}
use pamodbus.Host.Serial.{Serial, send_from, ser_send}

-- What POSIX documents of `write` on an open device. `wire` is what the device has taken so far: a call
-- takes at least one byte and reports how many, or it takes none and sets `errno`. `calls` bounds the
-- calls that a signal can still interrupt.
pub record IsWriter {W T : Type 0} (os : Posix W T) (fd : ℤ) (wire : W → List ℕ) (calls : W → ℕ)
    : Type 0 where
  pub takes :
      (bytes : List ℕ) (w : W) (k : ℕ)
      → 0 < length bytes
      → (os.write fd bytes w).0 ≡ pos k
      → (0 < k)
        × (k ≤ length bytes)
        × (wire (os.write fd bytes w).1 ≡ wire w ++ take k bytes)
        × (calls (os.write fd bytes w).1 ≤ calls w)
  pub refuses :
      (bytes : List ℕ) (w : W) (k : ℕ)
      → (os.write fd bytes w).0 ≡ negsuc k
      → (wire (os.write fd bytes w).1 ≡ wire w)
        × (os.errno (os.write fd bytes w).1 ≡ os.constants.eintr
            → calls (os.write fd bytes w).1 < calls w)

-- How sending `left` ends in the system `w`: all of it is on the wire behind `before`, or an error other than
-- an interruption left a first part of it there.
pub data Sent {W T : Type 0} (os : Posix W T) (wire : W → List ℕ) (before left : List ℕ)
    : Option (ℤ × W) → Type 0 where
  all_sent : {w : W} → wire w ≡ before ++ left → Sent os wire before left (some (pos 0, w))
  part_sent :
      {w : W} (k : ℕ)
      → k < length left
      → wire w ≡ before ++ take k left
      → os.errno w ≢ os.constants.eintr
      → Sent os wire before left (some (negsuc 0, w))

module _ {W T : Type 0} (os : Posix W T) (wire : W → List ℕ) where
  -- Sending the rest behind the first part of it.
  Sent-prepend :
      {before left : List ℕ} {o : Option (ℤ × W)} (j : ℕ)
      → j ≤ length left
      → Sent os wire (before ++ take j left) (drop j left) o
      → Sent os wire before left o
  Sent-prepend {before} {left} j h (all_sent e) = all_sent (
      e
      ∙ append_assoc before (take j left) (drop j left)
      ∙ ap (◌++◌ before) (take-append-drop j left))
  Sent-prepend {before} {left} j h (part_sent k lt e ne) =
      part_sent (j + k) (omega (arith, length-drop j left))
        (e
          ∙ append_assoc before (take j left) (take k (drop j left))
          ∙ ap (◌++◌ before) (take-drop j k left))
        ne

  Sent-none : {before : List ℕ} {w : W} → wire w ≡ before → Sent os wire before [] (some (pos 0, w))
  Sent-none {before} e = all_sent (e ∙ sym (append-nil before))

module _ {W T : Type 0} (os : Posix W T) (wire : W → List ℕ) (calls : W → ℕ) (h : Serial)
    (writer : IsWriter os h.fd wire calls) (bytes : List ℕ) (len : ℕ) (inside : len ≤ length bytes)
    (small : len < 2 ^ 64) where
  abbrev left : ℕ → List ℕ
  left off = drop off (take len bytes)

  abbrev call : ℕ → W → ℤ × W
  call off w = os.write h.fd (take (len - off) (drop off bytes)) w

  done : (off : ℕ) (w : W) → len ≤ off → Sent os wire (wire w) (left off) (some (pos 0, w))
  done off w hi =
      let e : drop off (take len bytes) ≡ [] =
        drop-all off (take len bytes) (omega (arith, length-take len bytes)) in
      rw e (Sent-none os wire refl)

  -- What one call of `write` comes to, if the rounds behind it are right.
  written :
      (off fuel : ℕ) (w : W)
      → off < len
      → len - off + calls w ≤ suc fuel
      → (next : (off : ℕ) (w : W)
          → off ≤ len
          → len - off + calls w ≤ fuel
          → Sent os wire (wire w) (left off) (send_from os h bytes len off fuel w))
      → (n : ℤ) → (call off w).0 ≡ n
      → Sent os wire (wire w) (left off) (elim n [
        | pos k ↦ send_from os h bytes len (size_t (off + k)) fuel (call off w).1
        | negsuc k ↦ elim (os.errno (call off w).1 == os.constants.eintr) [
          | true ↦ send_from os h bytes len off fuel (call off w).1
          | false ↦ some (negsuc 0, (call off w).1)
        ]
      ])
  written off fuel w lo enough next (pos k) e =
      let chunk = take (len - off) (drop off bytes) in
      let after = send_from os h bytes len (off + k) fuel (call off w).1 in
      let n : length chunk ≡ len - off =
        omega (arith, length-take (len - off) (drop off bytes), length-drop off bytes) in
      let (some_taken, all_there, on_wire, c) = writer.takes chunk w k (omega arith) e in
      let same : chunk ≡ left off = sym (drop-take off len bytes) in
      let moved : size_t (off + k) ≡ off + k = omega arith in
      let rest : left (off + k) ≡ drop k (left off) = sym (drop-drop k off (take len bytes)) in
      let sent : Sent os wire (wire (call off w).1) (left (off + k)) after =
        next (off + k) (call off w).1 (omega arith) (omega arith) in
      let short : k ≤ length (left off) = subst (λ l. k ≤ length l) same all_there in
      let sent' : Sent os wire (wire w ++ take k (left off)) (drop k (left off)) after =
        subst (λ l. Sent os wire (wire w ++ take k l) (drop k (left off)) after) same
          (subst (λ b. Sent os wire b (drop k (left off)) after) on_wire
            (subst (λ l. Sent os wire (wire (call off w).1) l after) rest sent)) in
      rw moved (Sent-prepend os wire k short sent')
  written off fuel w lo enough next (negsuc k) e =
      let chunk = take (len - off) (drop off bytes) in
      let w' = (call off w).1 in
      let (on_wire, c) = writer.refuses chunk w k e in
      elim (Bool-cases (os.errno w' == os.constants.eintr)) [
        | inl i ↦
            let fewer : calls w' < calls w = c ((==_iff (os.errno w') os.constants.eintr).0 i) in
            rw i (
              subst (λ b. Sent os wire b (left off) (send_from os h bytes len off fuel w')) on_wire
                (next off w' (omega arith) (omega arith)))
        | inr i ↦
            let n : 0 < length (left off) =
              omega (arith, length-drop off (take len bytes), length-take len bytes) in
            rw i (part_sent 0 n (on_wire ∙ sym (append-nil (wire w))) (λ q. absurd (ground arith)))
      ]

  send_from-Sent :
      (off fuel : ℕ) (w : W)
      → off ≤ len
      → len - off + calls w ≤ fuel
      → Sent os wire (wire w) (left off) (send_from os h bytes len off fuel w)
  unfolding send_from
  send_from-Sent off zero w lo enough =
      let guard : ltb off len ≡ false = ground arith in rw guard (done off w (omega arith))
  send_from-Sent off (suc fuel) w lo enough = elim (Bool-cases (ltb off len)) [
    | inl e ↦
        rw (send_from, e)
          (written off fuel w (ground arith) enough (λ o v. send_from-Sent o fuel v) (call off w).0
            refl)
    | inr e ↦ rw (send_from, e) (done off w (ground arith))
  ]

-- `ser_send` comes to an end and delivers in order: on a device that behaves as `write` is documented, with
-- as many calls of `write` as there are bytes and interruptions to come, it either returns 0 with exactly the
-- `len` bytes behind what was on the wire, or it returns -1 for an error other than an interruption with a
-- proper first part of them there.
pub ser_send-Sent :
    {W T : Type 0} (os : Posix W T) (wire : W → List ℕ) (calls : W → ℕ) (h : Serial)
    (bytes : List ℕ) (len : ℕ) (w : W)
    → IsWriter os h.fd wire calls
    → len ≤ length bytes
    → len < 2 ^ 64
    → Sent os wire (wire w) (take len bytes) (ser_send os (len + calls w) h bytes len w)
unfolding ser_send
ser_send-Sent os wire calls h bytes len w writer inside small =
    send_from-Sent os wire calls h writer bytes len inside small 0 (len + calls w) w (omega arith)
      (omega arith)
