-- ===== src/Pdu/Build/Sent.antt =====
-- The frames of the requests, and the transmit buffer after a builder of src/pdu.c over RTU.
use pamodbus.Common.{ℕ, ◌+◌, ◌*◌, ◌^◌, ◌≤◌, ◌<◌, List, [], ◌∷◌, ◌++◌, some, ◌||◌}
use pamodbus.Common.{
  ◌≡◌, refl, sym, arith, ap, ◌∙◌, length, length-drop, drop, drop-drop, deref, pos, ltb, ◌==◌,
  if◌then◌else◌,
}
use pamodbus.Common.{write, ◌>>=◌}
use pamodbus.Crc.Reference.{IsBytes}
use pamodbus.Context.{Modbus, Result, rtu_ops, pa_err_bad_param}
use pamodbus.Framer.Frames.{rtu_adu}
use pamodbus.Framer.Ops.{wrap-rtu_wrap}
use pamodbus.Framer.Rtu.Wrap.{rtu_wrap-adu}
use pamodbus.Pdu.Wire.{put16}
use pamodbus.Pdu.Wire.Layout.{regs_bytes, IsWords, length-regs_bytes}
use pamodbus.Pdu.Build.{wrapped, finish, finish_with, build_read_coils, build_read_discrete_inputs}
use pamodbus.Pdu.Build.{build_read_holding_registers, build_read_input_registers}
use pamodbus.Pdu.Build.{
  build_write_single_coil, build_write_single_register, build_write_multiple_registers,
}
use pamodbus.Pdu.Build.Payload.{
  fixed_pdu, registers_pdu, write_fixed, build_write_multiple_registers-pdu,
}

pub regs_bytes-IsBytes : (vs : List ℕ) → IsWords vs → IsBytes (regs_bytes vs)
regs_bytes-IsBytes [] h = tt
regs_bytes-IsBytes (v ∷ vs) h = (omega arith, (omega arith, regs_bytes-IsBytes vs h.1))

-- The frame of a PDU stands at the front of the transmit buffer.
abbrev pub sent : {W : Type 0} → Modbus W → List ℕ → Result W
sent ctx pdu = some (
  pos (length pdu + 3),
  record ctx {
    txbuf = some (rtu_adu ctx.slave pdu ++ drop (length pdu + 3) (deref ctx.txbuf));
    tx_len = length pdu + 3;
  },
)

-- A context over RTU with a transmit buffer for a frame of `n` bytes.
pub record IsReady {W : Type 0} (ctx : Modbus W) (n : ℕ) : Type 0 where
  pub framed : ctx.framer ≡ rtu_ops
  pub room : n ≤ length (deref ctx.txbuf)
  pub size : n ≤ ctx.txbuf_size
  pub unit : ctx.slave < 256

module _ {W : Type 0} (ctx : Modbus W) where
  pub finish_with-sent :
      (pdu : List ℕ)
      → IsReady ctx (length pdu + 3)
      → IsBytes pdu
      → finish_with ctx (pdu ++ drop (length pdu) (deref ctx.txbuf)) (length pdu) ≡ sent ctx pdu
  unfolding finish wrapped
  finish_with-sent pdu r h =
      let mem = deref ctx.txbuf in
      let rest = drop (length pdu) mem in
      let ctx' = record ctx { txbuf = some (pdu ++ rest) } in
      let done =
        rtu_wrap-adu ctx' pdu rest refl (omega (arith, length-drop (length pdu) mem, r.room)) r.size
          r.unit h in
      ap (λ o. o >>= λ w. some (wrapped ctx' w)) (wrap-rtu_wrap ctx' r.framed (length pdu) ∙ done)
      ∙ rw (drop-drop 3 (length pdu) mem) refl

module _ {W : Type 0} (ctx : Modbus W) (r : IsReady ctx 8) (a v : ℕ) (ha : a < 2 ^ 16)
    (hv : v < 2 ^ 16) where
  fixed_sent :
      (fc b : ℕ)
      → fc < 256
      → b < 2 ^ 16
      → (write (deref ctx.txbuf) 0 fc >>= λ buf.
          put16 buf 1 a >>= λ buf. put16 buf 3 b >>= λ buf. finish_with ctx buf 5)
        ≡ sent ctx (fixed_pdu fc a b)
  fixed_sent fc b hf hb =
      write_fixed fc a b (deref ctx.txbuf) (λ buf. finish_with ctx buf 5) (omega (arith, r.room)) ha
        hb
      ∙ finish_with-sent ctx (fixed_pdu fc a b) r (omega arith)

  -- The result of a builder that checks the count first.
  abbrev checked : ℕ → ℕ → Result W
  checked fc limit =
      if ltb v 1 || ltb limit v then some (pa_err_bad_param, ctx) else sent ctx (fixed_pdu fc a v)

  checked_sent :
      (fc limit : ℕ)
      → fc < 256
      → (if ltb v 1 || ltb limit v
          then some (pa_err_bad_param, ctx)
          else (write (deref ctx.txbuf) 0 fc >>= λ buf.
              put16 buf 1 a >>= λ buf. put16 buf 3 v >>= λ buf. finish_with ctx buf 5))
        ≡ checked fc limit
  checked_sent fc limit hf =
      ap (λ s. if ltb v 1 || ltb limit v then some (pa_err_bad_param, ctx) else s)
        (fixed_sent fc v hf hv)

  -- Over RTU, with room for 8 bytes in the transmit buffer, the builders of the four reads and of
  -- the writes of one coil or register leave the frame of the request at its front and return its
  -- length; the reads refuse a count of 0 or above the limit and change nothing.
  pub requests_sent :
      (build_read_coils ctx a v ≡ checked 1 2000)
      × (build_read_discrete_inputs ctx a v ≡ checked 2 2000)
      × (build_read_holding_registers ctx a v ≡ checked 3 125)
      × (build_read_input_registers ctx a v ≡ checked 4 125)
      × (build_write_single_coil ctx a v ≡ sent ctx (fixed_pdu 5 a (if v == 0 then 0 else 0xff00)))
      × (build_write_single_register ctx a v ≡ sent ctx (fixed_pdu 6 a v))
  unfolding build_read_coils build_read_discrete_inputs build_read_holding_registers
      build_read_input_registers build_write_single_coil build_write_single_register
  requests_sent = (
    checked_sent 1 2000 (omega arith),
    checked_sent 2 2000 (omega arith),
    checked_sent 3 125 (omega arith),
    checked_sent 4 125 (omega arith),
    fixed_sent 5 (if v == 0 then 0 else 0xff00) (omega arith) (ground arith),
    fixed_sent 6 v (omega arith) hv,
  )

module _ {W : Type 0} (ctx : Modbus W) (addr : ℕ) (vs post : List ℕ) (words : IsWords vs)
    (small : addr < 2 ^ 16) (some_regs : 1 ≤ length vs) (few : length vs ≤ 123)
    (ready : IsReady ctx (9 + length vs * 2)) where
  -- Over RTU, with room for the frame in the transmit buffer, the builder of FC 10 leaves the frame
  -- of the request with 1 to 123 registers at its front and returns its length.
  pub build_write_multiple_registers-sent :
      build_write_multiple_registers ctx addr (vs ++ post) (length vs)
      ≡ sent ctx (registers_pdu addr vs)
  build_write_multiple_registers-sent =
      let total : length (registers_pdu addr vs) ≡ 6 + length vs * 2 =
        omega (arith, length-regs_bytes vs) in
      let enough : IsReady ctx (length (registers_pdu addr vs) + 3) = record {
        framed = ready.framed;
        room = omega (arith, ready.room, length-regs_bytes vs);
        size = omega (arith, ready.size, length-regs_bytes vs);
        unit = ready.unit;
      } in
      build_write_multiple_registers-pdu ctx addr vs post (deref ctx.txbuf) refl words small
        some_regs few (omega (arith, ready.room)) (omega (arith, ready.size))
      ∙ ap (λ n. finish_with ctx (registers_pdu addr vs ++ drop n (deref ctx.txbuf)) n) (sym total)
      ∙ finish_with-sent ctx (registers_pdu addr vs) enough (
        omega arith,
        (
          omega arith,
          (omega arith, (omega arith, (omega arith, (omega arith, regs_bytes-IsBytes vs words)))),
        ),
      )
