-- ===== src/Pdu/Respond/Registers.antt =====
-- What `pa_modbus_slave_respond` answers to a read of holding registers (FC 03), over RTU.
use pamodbus.Common.{ℕ, ◌+◌, ◌*◌, ◌≤◌, List, [], ◌∷◌, ◌++◌, some, Option, true}
use pamodbus.Common.{
  ◌≡◌, refl, arith, ap, ◌∙◌, length, length-drop, drop, drop-drop, leb, u8, u16, pos, deref,
}
use pamodbus.Common.{write, store, ◌>>=◌, switch}
use pamodbus.Context.{Modbus, ReadFn, pa_err_protocol}
use pamodbus.Pdu.Wire.{put_regs}
use pamodbus.Pdu.Wire.Layout.{IsWords, length-regs_bytes, put_regs-behind}
use pamodbus.Pdu.Build.{finish_with}
use pamodbus.Pdu.Build.Sent.{IsReady, sent, finish_with-sent, regs_bytes-IsBytes}
use pamodbus.Pdu.Master.Response.{answer_pdu}
use pamodbus.Pdu.Respond.{slave_respond, send_reply, respond_cases}
use pamodbus.Pdu.Respond.Answer.{Reply, early, after_read, filled, built_in}
use pamodbus.Pdu.Respond.Read.{respond_regs}

pub write_two :
    {B : Type 0} (a b : ℕ) (mem : List ℕ) (k : List ℕ → Option B)
    → 2 ≤ length mem
    → (write mem 0 a >>= λ buf. write buf 1 b >>= k) ≡ k ((a ∷ b ∷ []) ++ drop 2 mem)
unfolding store
write_two a b [] k room = absurd (omega arith)
write_two a b (x ∷ []) k room = absurd (omega arith)
write_two a b (x ∷ y ∷ mem) k room = refl

-- A callback that gives registers for the request of the context, and the world after it.
pub record IsRead {W : Type 0} (ctx : Modbus W) (cb : ReadFn W) (values : List ℕ) (w : W)
    : Type 0 where
  pub registered : ctx.callbacks.read_holding_registers_cb ≡ some cb
  pub gives : cb ctx.slave_addr ctx.slave_count ctx.world ≡ (pos 0, values, w)
  pub fits : length values ≤ 128

-- The callback is registered, and gives its values.
after_read-gives :
    {W : Type 0} (ctx : Modbus W) (o : Option (ReadFn W)) (cb : ReadFn W) (addr count : ℕ)
    (k : Modbus W → List ℕ → Option (Reply W)) {values : List ℕ} {w : W}
    → o ≡ some cb
    → cb addr count ctx.world ≡ (pos 0, values, w)
    → after_read ctx o addr count k ≡ k (record ctx { world = w }) values
unfolding after_read
after_read-gives ctx o cb addr count k registered gives =
    ap (λ o. after_read ctx o addr count k) registered ∙ rw gives refl

module _ {W : Type 0} (ctx : Modbus W) (vs post : List ℕ) (few : length vs ≤ 125)
    (words : IsWords vs) where
  -- What follows the call of the callback.
  abbrev regs_answer : List ℕ → ℕ → Modbus W → List ℕ → Option (Reply W)
  regs_answer mem n ctx' values = do
    reg_data ← filled 128 values
    buf ← write mem 0 3
    buf ← write buf 1 (u8 (u16 (n * 2)))
    buf ← put_regs buf 2 reg_data 0 0 n
    built_in ctx' buf (2 + u16 (n * 2))

  regs_answer-built :
      (mem : List ℕ)
      → 2 + length vs * 2 ≤ length mem
      → length (vs ++ post) ≤ 128
      → regs_answer mem (length vs) ctx (vs ++ post)
        ≡ built_in ctx (answer_pdu 3 vs ++ drop (2 + length vs * 2) mem) (2 + length vs * 2)
  unfolding filled
  regs_answer-built mem room fits =
      let n = length vs in
      let g1 : leb (length (vs ++ post)) 128 ≡ true = ground (arith, fits) in
      let bytes : u16 (n * 2) ≡ n * 2 = omega arith in
      let byte : u8 (n * 2) ≡ n * 2 = omega arith in
      rw (g1, bytes, byte)
        (write_two 3 (n * 2) mem _ (omega arith)
          ∙ ap (λ o. o >>= λ buf. built_in ctx buf (2 + n * 2))
              (put_regs-behind (3 ∷ n * 2 ∷ []) (drop 2 mem) vs post words
                (omega (arith, length-drop 2 mem)))
          ∙ ap (λ d. built_in ctx (answer_pdu 3 vs ++ d) (2 + n * 2)) (drop-drop (n * 2) 2 mem))

module _ {W : Type 0} (ctx : Modbus W) (cb : ReadFn W) (vs post : List ℕ) (w : W)
    (read : IsRead ctx cb (vs ++ post) w) (fc : ctx.last_function ≡ 3)
    (count : ctx.slave_count ≡ length vs) (few : length vs ≤ 125) (words : IsWords vs)
    (ready : IsReady ctx (5 + length vs * 2)) where
  -- Over RTU, on a read of holding registers (FC 03) whose callback succeeds with at least the
  -- registers asked for, 125 at most, and a transmit buffer with room for the frame, the slave
  -- leaves the frame of the byte count and the registers in it.
  pub slave_respond-registers :
      slave_respond ctx ≡ sent (record ctx { world = w }) (answer_pdu 3 vs)
  unfolding slave_respond respond_regs send_reply
  slave_respond-registers =
      let mem = deref ctx.txbuf in
      let ctx' = record ctx { world = w } in
      let size : 2 + length vs * 2 ≡ length (answer_pdu 3 vs) =
        omega (arith, length-regs_bytes vs) in
      let enough : IsReady ctx' (length (answer_pdu 3 vs) + 3) = record {
        framed = ready.framed;
        room = omega (arith, ready.room, length-regs_bytes vs);
        size = omega (arith, ready.size, length-regs_bytes vs);
        unit = ready.unit;
      } in
      ap (λ f. switch f (respond_cases ctx f) (some (early pa_err_protocol ctx)) >>= send_reply) fc
      ∙ ap (λ o. o >>= send_reply)
          (after_read-gives ctx ctx.callbacks.read_holding_registers_cb cb ctx.slave_addr
              ctx.slave_count (regs_answer ctx vs post few words mem ctx.slave_count)
              read.registered read.gives
            ∙ ap (λ n. regs_answer ctx vs post few words mem n ctx' (vs ++ post)) count
            ∙ regs_answer-built ctx' vs post few words mem (omega (arith, ready.room)) read.fits)
      ∙ ap (λ n. finish_with ctx' (answer_pdu 3 vs ++ drop n mem) n) size
      ∙ finish_with-sent ctx' (answer_pdu 3 vs) enough
          (omega arith, (omega arith, regs_bytes-IsBytes vs words))
