-- ===== src/Pdu/Respond/Files/Fuel.antt =====
-- The fuel of the loops over file records, FC 14 and 15 of src/pdu.c.
use pamodbus.Common.{ℕ, zero, suc, ◌+◌, ◌-◌, ◌*◌, ◌/◌, ◌<◌, ◌≤◌, Option, none, some, not, min}
use pamodbus.Common.{◌≡◌, ◌≢◌, refl, sym, arith, ap, ltb, else_branch, >>=-some, ◌>>=◌, is_zero, u8}
use pamodbus.Common.{load, write}
use pamodbus.Context.{Modbus, ReadFn, WriteManyFn}
use pamodbus.Pdu.Wire.{put_regs}
use pamodbus.Pdu.Respond.Answer.{filled}
use pamodbus.Pdu.Respond.Files.{sub_request, ReadLoop, WriteLoop, LoopEnd, left, failed, next}
use pamodbus.Pdu.Respond.Files.{read_round, write_round, rounds}

left-ne-next : {S : Type 0} {s t : S} → some (left s) ≢ some (next t)
left-ne-next e = cc

failed-ne-next : {S : Type 0} {s t : S} → some (failed s) ≢ some (next t)
failed-ne-next e = cc

next_eq : {S : Type 0} {s t : S} → some (next s) ≡ some (next t) → s ≡ t
next_eq e = cc

-- With a measure that each round brings down, fuel above the measure is enough.
module _ {S : Type 0} (round : S → Option (LoopEnd S)) (size : S → ℕ)
    (down : (s t : S) → round s ≡ some (next t) → size t < size s) where
  rounds-enough :
      (fuel extra : ℕ) (s : S) → size s < fuel → rounds round (fuel + extra) s ≡ rounds round fuel s
  unfolding rounds
  rounds-enough zero extra s h = absurd (omega arith)
  rounds-enough (suc fuel) extra s h =
      let more : suc fuel + extra ≡ suc (fuel + extra) = omega arith in
      rw more
        (step (round s) refl (λ t smaller. rounds-enough fuel extra t (omega (arith, h, smaller))))
    where
      step :
          (o : Option (LoopEnd S))
          → round s ≡ o
          → ((t : S) → size t < size s → rounds round (fuel + extra) t ≡ rounds round fuel t)
          → (o >>= λ e. elim e [
            | next t ↦ rounds round (fuel + extra) t
            | left t ↦ some (left t)
            | failed t ↦ some (failed t)
          ])
            ≡ (o >>= λ e. elim e [
              | next t ↦ rounds round fuel t
              | left t ↦ some (left t)
              | failed t ↦ some (failed t)
            ])
      step none e ih = refl
      step (some (left t)) e ih = refl
      step (some (failed t)) e ih = refl
      step (some (next t)) e ih = ih t (down s t e)

module _ {W : Type 0} (ctx : Modbus W) where
  read_round-down :
      (cb : ReadFn W) (s t : ReadLoop W)
      → read_round ctx cb s ≡ some (next t)
      → (t.req_offset ≡ s.req_offset + 7) × (s.req_offset + 7 ≤ ctx.slave_reg_count * 2)
  unfolding read_round
  read_round-down cb s t e =
      let (inside, e1) =
        else_branch (not (ltb s.req_offset (ctx.slave_reg_count * 2))) _ _ left-ne-next e in
      let (whole, e2) =
        else_branch (ltb (ctx.slave_reg_count * 2) (s.req_offset + 7)) _ _ left-ne-next e1 in
      let (sub, es, e3) = >>=-some (sub_request ctx.slave_reg_data s.req_offset) _ e2 in
      let (ret, values, w) = cb sub.rec_num sub.rec_len s.world in
      let (data_regs, ed, e4) = >>=-some (filled 64 values) _ e3 in
      let (ok, e5) = else_branch (not (is_zero ret)) _ _ failed-ne-next e4 in
      let (room, e6) =
        else_branch (ltb ctx.txbuf_size (s.offset + 1 + u8 (sub.rec_len * 2 + 1))) _ _ left-ne-next
          e5 in
      let (b0, f0, e7) = >>=-some (write s.buf s.offset (u8 (sub.rec_len * 2 + 1))) _ e6 in
      let (b1, f1, e8) = >>=-some (write b0 (s.offset + 1) sub.ref_type) _ e7 in
      let (b2, f2, e9) = >>=-some (put_regs b1 (s.offset + 2) data_regs 0 0 sub.rec_len) _ e8 in
      (sym (ap (λ r. r.req_offset) (next_eq e9)), ground arith)

  write_round-down :
      (cb : WriteManyFn W) (s t : WriteLoop W)
      → write_round ctx cb s ≡ some (next t)
      → (s.offset + 7 ≤ t.offset) × (s.offset + 7 ≤ ctx.slave_reg_count * 2)
  unfolding write_round
  write_round-down cb s t e =
      let (inside, e1) =
        else_branch (not (ltb s.offset (ctx.slave_reg_count * 2))) _ _ left-ne-next e in
      let (whole, e2) =
        else_branch (ltb (ctx.slave_reg_count * 2) (s.offset + 7)) _ _ left-ne-next e1 in
      let (sub, es, e3) = >>=-some (sub_request ctx.slave_reg_data s.offset) _ e2 in
      let from = s.offset / 2 + 4 in
      let (data_regs, ed, e4) =
        >>=-some (load ctx.slave_reg_data from (min sub.rec_len (ctx.slave_reg_count - from))) _
          e3 in
      let (ret, w) = cb sub.rec_num sub.rec_len data_regs s.world in
      let (ok, e5) = else_branch (not (is_zero ret)) _ _ failed-ne-next e4 in
      let moved : s.offset + (7 + sub.rec_len * 2) ≡ t.offset = ap (λ r. r.offset) (next_eq e5) in
      (omega arith, ground arith)

  -- The loops over the sub-requests of FC 14 and FC 15 end within the fuel that they are given, from
  -- any state of theirs: more rounds than 2 * slave_reg_count + 1 give the same result.
  pub file_rounds-enough :
      (read_cb : ReadFn W) (write_cb : WriteManyFn W) (r : ReadLoop W) (s : WriteLoop W) (extra : ℕ)
      → (rounds (read_round ctx read_cb) (suc (ctx.slave_reg_count * 2) + extra) r
          ≡ rounds (read_round ctx read_cb) (suc (ctx.slave_reg_count * 2)) r)
        × (rounds (write_round ctx write_cb) (suc (ctx.slave_reg_count * 2) + extra) s
            ≡ rounds (write_round ctx write_cb) (suc (ctx.slave_reg_count * 2)) s)
  file_rounds-enough read_cb write_cb r s extra =
      let limit = ctx.slave_reg_count * 2 in
      (
        rounds-enough (read_round ctx read_cb) (λ r. limit - r.req_offset)
            (λ r t e. omega (arith, read_round-down read_cb r t e)) (suc limit) extra r
            (omega arith),
        rounds-enough (write_round ctx write_cb) (λ s. limit - s.offset)
            (λ s t e. omega (arith, write_round-down write_cb s t e)) (suc limit) extra s
            (omega arith),
      )
