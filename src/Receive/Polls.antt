-- ===== src/Receive/Polls.antt =====
-- src/pamodbus.c: the calls that an application makes between two polls of the receiver, in any order.
use pamodbus.Common.{
  ℕ, ◌+◌, store, ◌≤◌, ◌<◌, ◌^◌, List, Option, none, some, ◌≡◌, refl, ap, ◌∙◌, subst, arith, length,
  ℤ,
}
use pamodbus.Common.{Pointer, deref}
use pamodbus.Context.{
  Modbus, Result, RecvFn, SendFn, TicksFn, ReadFn, WriteOneFn, WriteManyFn, Mode,
}
use pamodbus.Context.Valid.{IsValid}
use pamodbus.Context.Config.{
  set_slave, set_discovery_addr, set_mode, set_rx_idle_timeout, rx_reset, set_rxbuf, set_recv_cb,
  set_ticks_cb, set_send_cb, set_txbuf, set_read_coils_cb, set_read_discrete_inputs_cb,
  set_read_holding_registers_cb, set_read_input_registers_cb, set_write_single_coil_cb,
  set_write_single_register_cb, set_write_multiple_coils_cb, set_write_multiple_registers_cb,
}
use pamodbus.Receive.{recv}
use pamodbus.Receive.Raw.{RawResult, recv_raw}
use pamodbus.Receive.Send.{send, send_by, transmit}
use pamodbus.Receive.Safe.{
  IsReceiving, Receives, receives, IsPolite, counted, reset-IsReceiving, world-IsReceiving,
}
use pamodbus.Receive.Total.{recv-Receives}
use pamodbus.Receive.Shortest.{RawDone, taken, untaken, polled, recv_raw-RawDone}

-- One call. A buffer that is set has the size that is given, and room for the bytes that are pending.
pub data Step {W : Type 0} : Modbus W → Modbus W → Type 0 where
  poll :
      {ctx ctx' : Modbus W} {ret : ℤ} (cb : RecvFn W)
      → ctx.callbacks.recv_cb ≡ some cb
      → IsPolite cb
      → recv ctx ≡ some (ret, ctx')
      → Step ctx ctx'
  poll_raw :
      {ctx : Modbus W} {r : RawResult W} (cb : RecvFn W) (pdu_mem : List ℕ) (pdu_len : ℕ)
      → ctx.callbacks.recv_cb ≡ some cb
      → IsPolite cb
      → pdu_len ≤ length pdu_mem
      → recv_raw ctx (some pdu_mem) (some pdu_len) ≡ some r
      → Step ctx r.ctx
  sending : {ctx ctx' : Modbus W} {ret : ℤ} → send ctx ≡ some (ret, ctx') → Step ctx ctx'
  reset : {ctx : Modbus W} → Step ctx (rx_reset ctx)
  slave_set : {ctx : Modbus W} (id : ℕ) → Step ctx (set_slave ctx id)
  discovery_set : {ctx : Modbus W} (addr : ℕ) → Step ctx (set_discovery_addr ctx addr)
  mode_set : {ctx : Modbus W} (m : Mode) → Step ctx (set_mode ctx m)
  timeout_set : {ctx : Modbus W} (ticks : ℕ) → Step ctx (set_rx_idle_timeout ctx ticks)
  recv_cb_set : {ctx : Modbus W} (cb : Option (RecvFn W)) → Step ctx (set_recv_cb ctx cb)
  ticks_cb_set : {ctx : Modbus W} (cb : Option (TicksFn W)) → Step ctx (set_ticks_cb ctx cb)
  send_cb_set : {ctx : Modbus W} (cb : Option (SendFn W)) → Step ctx (set_send_cb ctx cb)
  read_coils_cb_set :
      {ctx : Modbus W} (cb : Option (ReadFn W)) → Step ctx (set_read_coils_cb ctx cb)
  read_discrete_inputs_cb_set :
      {ctx : Modbus W} (cb : Option (ReadFn W)) → Step ctx (set_read_discrete_inputs_cb ctx cb)
  read_holding_registers_cb_set :
      {ctx : Modbus W} (cb : Option (ReadFn W)) → Step ctx (set_read_holding_registers_cb ctx cb)
  read_input_registers_cb_set :
      {ctx : Modbus W} (cb : Option (ReadFn W)) → Step ctx (set_read_input_registers_cb ctx cb)
  write_single_coil_cb_set :
      {ctx : Modbus W} (cb : Option (WriteOneFn W)) → Step ctx (set_write_single_coil_cb ctx cb)
  write_single_register_cb_set :
      {ctx : Modbus W} (cb : Option (WriteOneFn W)) → Step ctx (set_write_single_register_cb ctx cb)
  write_multiple_coils_cb_set :
      {ctx : Modbus W} (cb : Option (WriteManyFn W)) → Step ctx (set_write_multiple_coils_cb ctx cb)
  write_multiple_registers_cb_set :
      {ctx : Modbus W} (cb : Option (WriteManyFn W))
      → Step ctx (set_write_multiple_registers_cb ctx cb)
  txbuf_set : {ctx : Modbus W} (buf : Pointer) (size : ℕ) → Step ctx (set_txbuf ctx buf size)
  rxbuf_set :
      {ctx : Modbus W} (buf : Pointer) (size : ℕ)
      → size ≤ length (deref buf)
      → ctx.rx_len ≤ size
      → size < 2 ^ 64
      → Step ctx (set_rxbuf ctx buf size)

-- Any number of calls.
pub data Reach {W : Type 0} (s : Modbus W) : Modbus W → Type 0 where
  here : Reach s s
  next : {t u : Modbus W} → Reach s t → Step t u → Reach s u

Receives-IsReceiving :
    {W : Type 0} {r : Result W} {ret : ℤ} {c : Modbus W}
    → Receives r
    → r ≡ some (ret, c)
    → IsReceiving c
Receives-IsReceiving (receives {ctx = ctx} v) e =
    subst IsReceiving (ap (λ o. elim o [ none ↦ ctx | some p ↦ p.1 ]) e) v

RawDone-IsReceiving :
    {W : Type 0} {size : ℕ} {n : ℤ} {buf mem : List ℕ} {pend len : ℕ} {o : Option (RawResult W)}
    {r : RawResult W}
    → RawDone size n buf pend mem len o
    → o ≡ some r
    → IsReceiving r.ctx
RawDone-IsReceiving (taken {ctx = ctx} k bytes v a b c d f g h i) e =
    subst IsReceiving (ap (λ o. elim o [ none ↦ ctx | some r ↦ r.ctx ]) e) v
RawDone-IsReceiving (untaken {ctx = ctx} why v) e =
    subst IsReceiving (ap (λ o. elim o [ none ↦ ctx | some r ↦ r.ctx ]) e) v

send_by-Receives :
    {W : Type 0} (ctx : Modbus W) (o : Option (SendFn W))
    → IsReceiving ctx
    → Receives (send_by ctx o)
unfolding send_by transmit
send_by-Receives ctx none r = receives r
send_by-Receives ctx (some cb) r =
    receives (world-IsReceiving ctx r (cb (deref ctx.txbuf) ctx.tx_len ctx.world).1)

-- A change of the configuration that leaves the framer and the receive buffer.
reconfigured :
    {W : Type 0} {ctx c : Modbus W}
    → IsReceiving ctx
    → IsValid c
    → c.framer ≡ ctx.framer
    → c.framer_type ≡ ctx.framer_type
    → c.rxbuf ≡ ctx.rxbuf
    → c.rxbuf_size ≡ ctx.rxbuf_size
    → c.rx_len ≡ ctx.rx_len
    → IsReceiving c
reconfigured r v f t b n k =
    let mem = ap (λ p. length (deref p)) b in
    record {
      valid = v;
      framed = f ∙ r.framed;
      framed_type = t ∙ r.framed_type;
      room = omega (arith, r.room);
      pending = omega (arith, r.pending);
      small = omega (arith, r.small);
    }

Step-IsReceiving : {W : Type 0} {s t : Modbus W} → Step s t → IsReceiving s → IsReceiving t
unfolding send rx_reset set_slave set_discovery_addr set_mode set_rx_idle_timeout set_recv_cb
    set_ticks_cb set_rxbuf set_send_cb set_txbuf set_read_coils_cb set_read_discrete_inputs_cb
    set_read_holding_registers_cb set_read_input_registers_cb set_write_single_coil_cb
    set_write_single_register_cb set_write_multiple_coils_cb set_write_multiple_registers_cb
Step-IsReceiving (poll {ctx} cb registered polite e) r =
    Receives-IsReceiving (recv-Receives ctx cb r registered polite) e
Step-IsReceiving (poll_raw {ctx} cb mem len registered polite room e) r =
    let (buf, stored, done) = recv_raw-RawDone ctx cb mem len r registered polite room in
    RawDone-IsReceiving done e
Step-IsReceiving (sending {ctx} e) r =
    Receives-IsReceiving (send_by-Receives ctx ctx.callbacks.send_cb r) e
Step-IsReceiving (reset {ctx}) r = reset-IsReceiving ctx r
Step-IsReceiving (slave_set id) r =
    let v = r.valid in reconfigured r (omega arith) refl refl refl refl refl
Step-IsReceiving (discovery_set addr) r =
    let v = r.valid in reconfigured r (omega arith) refl refl refl refl refl
Step-IsReceiving (mode_set m) r =
    let v = r.valid in reconfigured r (omega arith) refl refl refl refl refl
Step-IsReceiving (timeout_set ticks) r =
    let v = r.valid in reconfigured r (omega arith) refl refl refl refl refl
Step-IsReceiving (recv_cb_set cb) r =
    let v = r.valid in reconfigured r (omega arith) refl refl refl refl refl
Step-IsReceiving (ticks_cb_set cb) r =
    let v = r.valid in reconfigured r (omega arith) refl refl refl refl refl
Step-IsReceiving (send_cb_set cb) r =
    let v = r.valid in reconfigured r (omega arith) refl refl refl refl refl
Step-IsReceiving (read_coils_cb_set cb) r =
    let v = r.valid in reconfigured r (omega arith) refl refl refl refl refl
Step-IsReceiving (read_discrete_inputs_cb_set cb) r =
    let v = r.valid in reconfigured r (omega arith) refl refl refl refl refl
Step-IsReceiving (read_holding_registers_cb_set cb) r =
    let v = r.valid in reconfigured r (omega arith) refl refl refl refl refl
Step-IsReceiving (read_input_registers_cb_set cb) r =
    let v = r.valid in reconfigured r (omega arith) refl refl refl refl refl
Step-IsReceiving (write_single_coil_cb_set cb) r =
    let v = r.valid in reconfigured r (omega arith) refl refl refl refl refl
Step-IsReceiving (write_single_register_cb_set cb) r =
    let v = r.valid in reconfigured r (omega arith) refl refl refl refl refl
Step-IsReceiving (write_multiple_coils_cb_set cb) r =
    let v = r.valid in reconfigured r (omega arith) refl refl refl refl refl
Step-IsReceiving (write_multiple_registers_cb_set cb) r =
    let v = r.valid in reconfigured r (omega arith) refl refl refl refl refl
Step-IsReceiving (txbuf_set buf size) r =
    let v = r.valid in reconfigured r (omega arith) refl refl refl refl refl
Step-IsReceiving (rxbuf_set buf size room pending small) r =
    let v = r.valid in
    record {
      valid = omega arith;
      framed = r.framed;
      framed_type = r.framed_type;
      room = room;
      pending = pending;
      small = small;
    }

Reach-IsReceiving : {W : Type 0} {s t : Modbus W} → Reach s t → IsReceiving s → IsReceiving t
Reach-IsReceiving here r = r
Reach-IsReceiving (next path step) r = Step-IsReceiving step (Reach-IsReceiving path r)

-- The receiver can be polled in every state. Take a context over RTU whose receive buffer has the size that is given
-- and the pending bytes in it, and any number and order of these calls from there on: polls and raw polls
-- with polite callbacks, sends, resets, the setters of the address, the discovery address, the mode,
-- the timeout, the transmit buffer and each of the eleven callbacks, and changes of the receive buffer to one with room
-- for the pending bytes. In the context that is reached, with a polite receive callback in place, `pa_modbus_recv`
-- returns without an access outside an array and leaves such a context; and so does `pa_modbus_recv_raw` with
-- memory for `pdu_len` bytes, which takes the shortest part of the pending bytes that ends in its CRC or, for a reason
-- that its code tells, nothing.
pub Reach-Polls :
    {W : Type 0} {s t : Modbus W} (cb : RecvFn W) (pdu_mem : List ℕ) (pdu_len : ℕ)
    → Reach s t
    → IsReceiving s
    → t.callbacks.recv_cb ≡ some cb
    → IsPolite cb
    → pdu_len ≤ length pdu_mem
    → IsReceiving t
      × Receives (recv t)
      × ((mem : List ℕ) × (store (deref t.rxbuf) t.rx_len (polled t cb).1 ≡ some mem)
          × RawDone t.rxbuf_size
              (polled t cb).0
              mem
              (t.rx_len + counted (polled t cb).0)
              pdu_mem
              pdu_len
              (recv_raw t (some pdu_mem) (some pdu_len)))
Reach-Polls {t} cb pdu_mem pdu_len path start registered polite room =
    let r = Reach-IsReceiving path start in
    (
      r,
      recv-Receives t cb r registered polite,
      recv_raw-RawDone t cb pdu_mem pdu_len r registered polite room,
    )
