-- ===== src/Pdu/Respond/Files/Safe.antt =====
-- The file records, FC 14 and 15 of src/pdu.c, and the bounds of the arrays.
use pamodbus.Common.{
  ℕ, suc, ◌+◌, ◌-◌, ◌*◌, ◌/◌, ◌<◌, ◌≤◌, List, [], ◌∷◌, Option, some, not, min, Bool, true, false,
  false,
}
use pamodbus.Common.{
  ◌≡◌, refl, arith, ◌∙◌, length, get_elem?-some, store-some, load-some, ltb, is_zero, if◌then◌else◌,
  deref, u8, shr, ◌>>=◌, write,
}
use pamodbus.Context.{Modbus, ReadFn, WriteManyFn}
use pamodbus.Pdu.Wire.{put_regs}
use pamodbus.Pdu.Wire.Access.{put_regs-some}
use pamodbus.Pdu.Respond.Files.{
  SubRequest, sub_request, ReadLoop, WriteLoop, LoopEnd, read_round, write_round, read_file_answer,
  respond_read_file, write_file_answer, respond_write_file,
}
use pamodbus.Pdu.Respond.Files.Loops.{
  Ends, ends_left, ends_failed, Rounded, ended, goes_on, Rounded-if, rounds-Ends,
}
use pamodbus.Pdu.Respond.Framed.{IsFramed, Answers, Answers-elim, answers, returns, moved, refilled}
use pamodbus.Pdu.Respond.Served.{Fills, filled-some}

sub_request-some :
    (regs : List ℕ) (offset : ℕ)
    → offset / 2 + 3 < length regs
    → (sub : SubRequest) × (sub_request regs offset ≡ some sub) × (sub.rec_len ≤ 64)
unfolding sub_request
sub_request-some regs offset h =
    let (first, e₁) = get_elem?-some regs (offset / 2) (omega arith) in
    let (file_num, e₂) = get_elem?-some regs (offset / 2 + 1) (omega arith) in
    let (rec_num, e₃) = get_elem?-some regs (offset / 2 + 2) (omega arith) in
    let (rec_len, e₄) = get_elem?-some regs (offset / 2 + 3) (omega arith) in
    let n = if ltb 64 rec_len then 64 else rec_len in
    (
      record { ref_type = u8 (shr first 8); rec_num = rec_num; rec_len = n },
      rw (e₁, e₂, e₃, e₄) refl,
      ground arith,
    )

-- A record in the buffer: its byte count, the reference type and the registers.
record_stored :
    (mem vs : List ℕ) (off x y n : ℕ)
    → n ≤ length vs
    → off + 2 + n * 2 ≤ length mem
    → (b₁ b₂ b₃ : List ℕ) × (write mem off x ≡ some b₁)
      × (write b₁ (off + 1) y ≡ some b₂)
      × (put_regs b₂ (off + 2) vs 0 0 n ≡ some b₃)
      × (length b₃ ≡ length mem)
record_stored mem vs off x y n enough room =
    let (b₁, f₁, l₁) = store-some mem off (x ∷ []) (omega arith) in
    let (b₂, f₂, l₂) = store-some b₁ (off + 1) (y ∷ []) (omega arith) in
    let (b₃, f₃, l₃) = put_regs-some b₂ (off + 2) vs 0 0 n (omega arith) (omega arith) in
    (b₁, b₂, b₃, f₁, f₂, f₃, l₃ ∙ l₂ ∙ l₁)

is_so : (b : Bool) → not b ≡ false → b ≡ true
is_so true e = refl
is_so false e = absurd cc

-- What is copied ends where the registers of the request do.
copied :
    (len count from size : ℕ) → from ≤ count → count ≤ size → from + min len (count - from) ≤ size
copied len count from size h le = ground arith

module _ {W : Type 0} (ctx : Modbus W) (r : IsFramed ctx) where
  fits :
      (off n : ℕ) (buf : List ℕ)
      → length buf ≡ length (deref ctx.txbuf)
      → ltb ctx.txbuf_size (off + 1 + u8 (n * 2 + 1)) ≡ false
      → n ≤ 64
      → off + 2 + n * 2 ≤ length buf
  fits off n buf l e few = ground (arith, r.size)

  -- The transmit buffer keeps its size.
  abbrev Sized : ReadLoop W → Type 0
  Sized s = length s.buf ≡ length (deref ctx.txbuf)

  abbrev read_left : ReadLoop W → ℕ
  read_left s = ctx.slave_reg_count * 2 - s.req_offset

  read_round-Rounded :
      (cb : ReadFn W) (s : ReadLoop W)
      → Fills (λ n. n) (some cb)
      → Sized s
      → Rounded Sized read_left (read_left s) (read_round ctx cb s)
  unfolding read_round
  read_round-Rounded cb s gives l =
      Rounded-if Sized read_left (not (ltb s.req_offset (ctx.slave_reg_count * 2)))
        (λ _. ended (ends_left l))
        λ e.
          Rounded-if Sized read_left (ltb (ctx.slave_reg_count * 2) (s.req_offset + 7))
            (λ _. ended (ends_left l))
            λ whole.
              let v = r.valid in
              let inside : s.req_offset + 7 ≤ ctx.slave_reg_count * 2 = ground arith in
              let (sub, e₁, few) = sub_request-some ctx.slave_reg_data s.req_offset (omega arith) in
              let (ret, vs, w) = cb sub.rec_num sub.rec_len s.world in
              let (few_stored, full) = gives sub.rec_num sub.rec_len s.world in
              rw (e₁, filled-some 64 vs (omega arith))
                (Rounded-if Sized read_left (not (is_zero ret)) (λ _. ended (ends_failed l))
                  λ ok.
                    let lv : length vs ≡ sub.rec_len = full (is_so (is_zero ret) ok) in
                    Rounded-if Sized read_left
                      (ltb ctx.txbuf_size (s.offset + 1 + u8 (sub.rec_len * 2 + 1)))
                      (λ _. ended (ends_left l))
                      λ e₂.
                        let (b₁, b₂, b₃, f₁, f₂, f₃, l') =
                          record_stored s.buf vs s.offset (u8 (sub.rec_len * 2 + 1)) sub.ref_type
                            sub.rec_len (omega arith) (fits s.offset sub.rec_len s.buf l e₂ few) in
                        rw (f₁, f₂, f₃) (goes_on (l' ∙ l) (omega arith)))

  read_file_answer-Answers :
      (o : Option (LoopEnd (ReadLoop W))) → Ends Sized o → Answers (o >>= read_file_answer ctx)
  unfolding read_file_answer
  read_file_answer-Answers o (ends_left {s} l) =
      let (b, e, l') = store-some s.buf 1 (s.resp_byte_count ∷ []) (omega (arith, r.room)) in
      rw e (answers (refilled (record ctx { world = s.world }) (moved ctx r s.world) b (l' ∙ l)))
  read_file_answer-Answers o (ends_failed {s} l) =
      returns (refilled (record ctx { world = s.world }) (moved ctx r s.world) s.buf l).valid

  pub respond_read_file-Answers :
      (fc : ℕ)
      → Fills (λ n. n) ctx.callbacks.read_holding_registers_cb
      → Answers (respond_read_file ctx fc)
  unfolding respond_read_file
  respond_read_file-Answers fc gives =
      Answers-elim (Fills (λ n. n)) ctx.callbacks.read_holding_registers_cb gives (returns r.valid)
        λ cb fills.
          let (b, e, l) = store-some (deref ctx.txbuf) 0 (fc ∷ []) (omega (arith, r.room)) in
          rw e (
            read_file_answer-Answers _ (
              rounds-Ends Sized read_left (read_round ctx cb) (λ s. read_round-Rounded cb s fills)
                (suc (ctx.slave_reg_count * 2)) _ l (omega arith)))

  abbrev write_left : WriteLoop W → ℕ
  write_left s = ctx.slave_reg_count * 2 - s.offset

  write_round-Rounded :
      (cb : WriteManyFn W) (s : WriteLoop W)
      → Rounded (λ s. Unit {0}) write_left (write_left s) (write_round ctx cb s)
  unfolding write_round
  write_round-Rounded cb s =
      Rounded-if _ write_left (not (ltb s.offset (ctx.slave_reg_count * 2)))
        (λ _. ended (ends_left tt))
        λ e.
          Rounded-if _ write_left (ltb (ctx.slave_reg_count * 2) (s.offset + 7))
            (λ _. ended (ends_left tt))
            λ whole.
              let v = r.valid in
              let inside : s.offset + 7 ≤ ctx.slave_reg_count * 2 = ground arith in
              let from = s.offset / 2 + 4 in
              let (sub, e₁, few) = sub_request-some ctx.slave_reg_data s.offset (omega arith) in
              let n = min sub.rec_len (ctx.slave_reg_count - from) in
              let within : from + n ≤ length ctx.slave_reg_data =
                copied sub.rec_len ctx.slave_reg_count from (length ctx.slave_reg_data)
                  (omega arith) (omega arith) in
              let (vs, e₂, l) = load-some ctx.slave_reg_data from n within in
              rw (e₁, e₂)
                (Rounded-if _ write_left (not (is_zero (cb sub.rec_num sub.rec_len vs s.world).0))
                  (λ _. ended (ends_failed tt)) λ _. goes_on tt (omega arith))

  write_file_answer-Answers :
      (fc : ℕ) (o : Option (LoopEnd (WriteLoop W)))
      → ctx.slave_reg_count ≤ 127
      → Ends (λ s. Unit {0}) o
      → Answers (o >>= write_file_answer ctx fc)
  unfolding write_file_answer
  write_file_answer-Answers fc o few (ends_left {s} _) =
      let v = r.valid in
      let n = ctx.slave_reg_count in
      let (b₁, e₁, l₁) = store-some (deref ctx.txbuf) 0 (fc ∷ []) (omega (arith, r.room)) in
      let (b₂, e₂, l₂) = store-some b₁ 1 (u8 (n * 2) ∷ []) (omega (arith, r.room)) in
      let (b₃, e₃, l₃) =
        put_regs-some b₂ 2 ctx.slave_reg_data 0 0 n (omega arith) (omega (arith, r.room)) in
      rw (e₁, e₂, e₃)
        (answers
          (refilled (record ctx { world = s.world }) (moved ctx r s.world) b₃ (l₃ ∙ l₂ ∙ l₁)))
  write_file_answer-Answers fc o few (ends_failed {s} _) = returns (moved ctx r s.world).valid

  pub respond_write_file-Answers :
      (fc : ℕ) → ctx.slave_reg_count ≤ 127 → Answers (respond_write_file ctx fc)
  unfolding respond_write_file
  respond_write_file-Answers fc few =
      Answers-elim (λ o. Unit {0}) ctx.callbacks.write_multiple_registers_cb tt (returns r.valid)
        λ cb _. write_file_answer-Answers fc _ few (
          rounds-Ends _ write_left (write_round ctx cb) (λ s _. write_round-Rounded cb s)
            (suc (ctx.slave_reg_count * 2)) _ tt (omega arith))
