-- ===== src/Pdu/Respond/Files.antt =====
-- `pa_modbus_slave_respond` of src/pdu.c: the file records, FC 14 and 15. The loops have fuel for
-- one round more than the request has bytes.
pub mod Fuel
pub mod Loops
pub mod Safe
use pamodbus.Common.{ℕ, zero, suc, ◌+◌, ◌-◌, ◌*◌, ◌/◌, List, Option, none, some, min}
use pamodbus.Common.{ltb, if◌then◌else◌, is_zero, u8, shr, not}
use pamodbus.Common.{deref, get_elem?, load, write, ◌>>=◌}
use pamodbus.Context.{Modbus, ReadFn, WriteManyFn, pa_err_state, pa_err_callback}
use pamodbus.Pdu.Wire.{put_regs}
use pamodbus.Pdu.Respond.Answer.{Reply, built, early, filled}

-- A sub-request at a byte offset: the reference type, the record number, the record length.
pub record SubRequest : Type 0 where
  pub ref_type : ℕ
  pub rec_num : ℕ
  pub rec_len : ℕ

unfoldable pub sub_request : List ℕ → ℕ → Option SubRequest
sub_request regs offset = do
  first ← get_elem? regs (offset / 2)
  file_num ← get_elem? regs (offset / 2 + 1)
  rec_num ← get_elem? regs (offset / 2 + 2)
  rec_len ← get_elem? regs (offset / 2 + 3)
  some (record {
    ref_type = u8 (shr first 8);
    rec_num = rec_num;
    rec_len = if ltb 64 rec_len then 64 else rec_len;
  })

-- The local state of the loop of FC 14.
pub record ReadLoop (W : Type 0) : Type 0 where
  pub buf : List ℕ
  pub offset : ℕ
  pub resp_byte_count : ℕ
  pub req_offset : ℕ
  pub world : W

-- How a loop ends: by its test or a `break`, or by an error of a callback.
pub data LoopEnd (S : Type 0) : Type 0 where
  left : S → LoopEnd S
  failed : S → LoopEnd S
  next : S → LoopEnd S

module _ {W : Type 0} (ctx : Modbus W) where
  -- One round of FC 14.
  unfoldable pub read_round : ReadFn W → ReadLoop W → Option (LoopEnd (ReadLoop W))
  unfolding sub_request filled
  read_round cb s =
      if not (ltb s.req_offset (ctx.slave_reg_count * 2))
      then some (left s)
      else if ltb (ctx.slave_reg_count * 2) (s.req_offset + 7)
      then some (left s)
      else do
        sub ← sub_request ctx.slave_reg_data s.req_offset
        let (ret, values, w) = cb sub.rec_num sub.rec_len s.world
        data_regs ← filled 64 values
        let s' = record s { world = w }
        if not (is_zero ret)
            then some (failed s')
            else let sub_byte_count = u8 (sub.rec_len * 2 + 1) in
              if ltb ctx.txbuf_size (s.offset + 1 + sub_byte_count) then some (left s') else do
                buf ← write s.buf s.offset sub_byte_count
                buf ← write buf (s.offset + 1) sub.ref_type
                buf ← put_regs buf (s.offset + 2) data_regs 0 0 sub.rec_len
                some (
                    next (record {
                      buf = buf;
                      offset = s.offset + 2 + sub.rec_len * 2;
                      resp_byte_count = u8 (s.resp_byte_count + u8 (1 + sub_byte_count));
                      req_offset = s.req_offset + 7;
                      world = w;
                    }))

-- Rounds until a loop ends; `none` also if the fuel runs out.
unfoldable pub rounds : {S : Type 0} → (S → Option (LoopEnd S)) → ℕ → S → Option (LoopEnd S)
rounds round zero s = none
rounds round (suc fuel) s = round s >>= λ e. elim e [
  | next s' ↦ rounds round fuel s'
  | left s' ↦ some (left s')
  | failed s' ↦ some (failed s')
]

module _ {W : Type 0} (ctx : Modbus W) where
  unfoldable pub read_file_answer : LoopEnd (ReadLoop W) → Option (Reply W)
  read_file_answer (left s) = do
    buf ← write s.buf 1 s.resp_byte_count
    some (built (2 + s.resp_byte_count) (record ctx { txbuf = some buf; world = s.world }))
  read_file_answer (failed s) =
      some (early pa_err_callback (record ctx { txbuf = some s.buf; world = s.world }))
  read_file_answer (next s) = none

  unfoldable pub respond_read_file : ℕ → Option (Reply W)
  unfolding read_round rounds read_file_answer
  respond_read_file fc = elim ctx.callbacks.read_holding_registers_cb [
    | none ↦ some (early pa_err_state ctx)
    | some cb ↦ do
      buf ← write (deref ctx.txbuf) 0 fc
      e ←
          rounds (read_round ctx cb) (suc (ctx.slave_reg_count * 2)) (record {
            buf = buf;
            offset = 2;
            resp_byte_count = 0;
            req_offset = 0;
            world = ctx.world;
          })
      read_file_answer e
  ]

-- The local state of the loop of FC 15.
pub record WriteLoop (W : Type 0) : Type 0 where
  pub offset : ℕ
  pub world : W

module _ {W : Type 0} (ctx : Modbus W) where
  -- One round of FC 15. Of the 64 registers that the callback is given the copied ones are
  -- initialised.
  unfoldable pub write_round : WriteManyFn W → WriteLoop W → Option (LoopEnd (WriteLoop W))
  unfolding sub_request
  write_round cb s =
      if not (ltb s.offset (ctx.slave_reg_count * 2))
      then some (left s)
      else if ltb (ctx.slave_reg_count * 2) (s.offset + 7)
      then some (left s)
      else do
        sub ← sub_request ctx.slave_reg_data s.offset
        let from = s.offset / 2 + 4
        data_regs ← load ctx.slave_reg_data from (min sub.rec_len (ctx.slave_reg_count - from))
        let (ret, w) = cb sub.rec_num sub.rec_len data_regs s.world
        if not (is_zero ret)
            then some (failed (record s { world = w }))
            else some (next (record { offset = s.offset + (7 + sub.rec_len * 2); world = w }))

  unfoldable pub write_file_answer : ℕ → LoopEnd (WriteLoop W) → Option (Reply W)
  write_file_answer fc (left s) =
      let req_byte_count = u8 (ctx.slave_reg_count * 2) in
      do
        buf ← write (deref ctx.txbuf) 0 fc
        buf ← write buf 1 req_byte_count
        buf ← put_regs buf 2 ctx.slave_reg_data 0 0 ctx.slave_reg_count
        some (built (2 + req_byte_count) (record ctx { txbuf = some buf; world = s.world }))
  write_file_answer fc (failed s) = some (early pa_err_callback (record ctx { world = s.world }))
  write_file_answer fc (next s) = none

module _ {W : Type 0} (ctx : Modbus W) where
  unfoldable pub respond_write_file : ℕ → Option (Reply W)
  unfolding write_round rounds write_file_answer
  respond_write_file fc = elim ctx.callbacks.write_multiple_registers_cb [
    | none ↦ some (early pa_err_state ctx)
    | some cb ↦ do
      e ←
          rounds (write_round ctx cb) (suc (ctx.slave_reg_count * 2))
            (record { offset = 0; world = ctx.world })
      write_file_answer ctx fc e
  ]
