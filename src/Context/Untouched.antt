-- ===== src/Context/Untouched.antt =====
-- What parsing leaves alone: the part of the context that is not a result of a parse.
use pamodbus.Common.{
  ℕ, ℤ, Option, none, some, Bool, true, false, ◌≡◌, refl, ◌>>=◌, if◌then◌else◌, Pointer,
}
use pamodbus.Context.{Modbus, Result, Callbacks, FramerType, FramerOps, Mode}

-- The buffers, the configuration, the callbacks, the state of the sender and of the receiver.
pub record Setup (W : Type 0) : Type 0 where
  pub txbuf : Pointer
  pub txbuf_size : ℕ
  pub rxbuf : Pointer
  pub rxbuf_size : ℕ
  pub framer_type : FramerType
  pub framer : FramerOps
  pub slave : ℕ
  pub discovery_addr : ℕ
  pub mode : Mode
  pub mode_set : ℕ
  pub idle_timeout_ticks : ℕ
  pub callbacks : Callbacks W
  pub tx_len : ℕ
  pub rx_len : ℕ
  pub last_rx_tick : ℕ
  pub next_transaction_id : ℕ
  pub world : W

abbrev pub setup_of : {W : Type 0} → Modbus W → Setup W
setup_of ctx = record {
  txbuf = ctx.txbuf;
  txbuf_size = ctx.txbuf_size;
  rxbuf = ctx.rxbuf;
  rxbuf_size = ctx.rxbuf_size;
  framer_type = ctx.framer_type;
  framer = ctx.framer;
  slave = ctx.slave;
  discovery_addr = ctx.discovery_addr;
  mode = ctx.mode;
  mode_set = ctx.mode_set;
  idle_timeout_ticks = ctx.idle_timeout_ticks;
  callbacks = ctx.callbacks;
  tx_len = ctx.tx_len;
  rx_len = ctx.rx_len;
  last_rx_tick = ctx.last_rx_tick;
  next_transaction_id = ctx.next_transaction_id;
  world = ctx.world;
}

-- If the operation returns, then with the set-up that it began with.
pub data Untouched {W : Type 0} (base : Setup W) : Result W → Type 0 where
  untouched : {ret : ℤ} {ctx : Modbus W} → setup_of ctx ≡ base → Untouched base (some (ret, ctx))
  fault : Untouched base none

module _ {W : Type 0} {base : Setup W} where
  pub Untouched-if :
      (b : Bool) {x y : Result W}
      → (b ≡ true → Untouched base x)
      → (b ≡ false → Untouched base y)
      → Untouched base (if b then x else y)
  Untouched-if true u v = u refl
  Untouched-if false u v = v refl

  pub Untouched-bind :
      {A : Type 0} (o : Option A) {f : A → Result W}
      → ((a : A) → Untouched base (f a))
      → Untouched base (o >>= f)
  Untouched-bind none u = fault
  Untouched-bind (some a) u = u a
