-- ===== src/Pdu/Respond/Answer.antt =====
-- What the cases of `pa_modbus_slave_respond` (src/pdu.c) share.
use pamodbus.Common.{ℕ, List, Option, none, some, ℤ, leb, is_zero, if◌then◌else◌, length}
use pamodbus.Context.{Modbus, ReadFn, WriteOneFn, WriteManyFn, pa_err_state, pa_err_callback}

-- A case has built the PDU of a length in the transmit buffer, or it has returned.
pub data Reply (W : Type 0) : Type 0 where
  built : ℕ → Modbus W → Reply W
  early : ℤ → Modbus W → Reply W

-- The array of `n` elements that a callback has filled; elements behind are not initialised, so
-- reading them is a fault, and so is a callback that stores more.
unfoldable pub filled : ℕ → List ℕ → Option (List ℕ)
filled n values = if leb (length values) n then some values else none

module _ {W : Type 0} (ctx : Modbus W) where
  -- `if (!cb) return PA_ERR_STATE; ret = cb(...); if (ret != 0) return PA_ERR_CALLBACK;`
  unfoldable pub after_read :
      Option (ReadFn W) → ℕ → ℕ → (Modbus W → List ℕ → Option (Reply W)) → Option (Reply W)
  after_read none addr count k = some (early pa_err_state ctx)
  after_read (some cb) addr count k =
      let (ret, values, w) = cb addr count ctx.world in
      let ctx' = record ctx { world = w } in
      if is_zero ret then k ctx' values else some (early pa_err_callback ctx')

  unfoldable pub after_write_one :
      Option (WriteOneFn W) → ℕ → ℕ → (Modbus W → Option (Reply W)) → Option (Reply W)
  after_write_one none addr value k = some (early pa_err_state ctx)
  after_write_one (some cb) addr value k =
      let (ret, w) = cb addr value ctx.world in
      let ctx' = record ctx { world = w } in
      if is_zero ret then k ctx' else some (early pa_err_callback ctx')

  unfoldable pub after_write_many :
      Option (WriteManyFn W) → ℕ → ℕ → List ℕ → (Modbus W → Option (Reply W)) → Option (Reply W)
  after_write_many none addr count values k = some (early pa_err_state ctx)
  after_write_many (some cb) addr count values k =
      let (ret, w) = cb addr count values ctx.world in
      let ctx' = record ctx { world = w } in
      if is_zero ret then k ctx' else some (early pa_err_callback ctx')

  -- The PDU of `n` bytes stands in `buf`.
  abbrev pub built_in : List ℕ → ℕ → Option (Reply W)
  built_in buf n = some (built n (record ctx { txbuf = some buf }))
