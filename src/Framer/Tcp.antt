-- ===== src/Framer/Tcp.antt =====
-- src/framer_tcp.c: the MBAP framer.
pub mod Wrap
pub mod Unwrap
use pamodbus.Common.{ℕ, ◌+◌, ◌-◌, ◌*◌, ◌/◌, ◌%◌, ◌^◌, Bool, ◌&&◌, ◌||◌, not, List, Option, some}
use pamodbus.Common.{ℤ, pos, ltb, ◌==◌, if◌then◌else◌, u8, u16, size_t, shr, low_bits, bit_or}
use pamodbus.Common.{deref, get_elem?, load, store, write, ◌>>=◌}
use pamodbus.Context.{Modbus, pa_err_buffer_full, pa_err_protocol, pa_err_invalid_slave}
use pamodbus.Framer.Outcome.{Wrapped, framed, refused, Unwrapped, pdu_at, stopped}

unfoldable pub tcp_overhead : ℕ
tcp_overhead = 7

module _ {W : Type 0} where
  unfoldable pub tcp_wrap : Modbus W → ℕ → Option (Wrapped W)
  tcp_wrap ctx pdu_len =
      if ltb ctx.txbuf_size (7 + pdu_len) then some (refused pa_err_buffer_full) else do
        pdu ← load (deref ctx.txbuf) 0 pdu_len
        buf ← store (deref ctx.txbuf) 7 pdu
        let trans_id = ctx.next_transaction_id
        let proto_id : ℕ = 0
        let len = u16 (pdu_len + 1)
        buf ← write buf 0 (u8 (low_bits (shr trans_id 8) 8))
        buf ← write buf 1 (u8 (low_bits trans_id 8))
        buf ← write buf 2 (u8 (low_bits (shr proto_id 8) 8))
        buf ← write buf 3 (u8 (low_bits proto_id 8))
        buf ← write buf 4 (u8 (low_bits (shr len 8) 8))
        buf ← write buf 5 (u8 (low_bits len 8))
        buf ← write buf 6 ctx.slave
        some (
            framed (7 + pdu_len)
              (record ctx { txbuf = some buf; next_transaction_id = u16 (trans_id + 1) }))

  -- `ctx->slave != 0xFF && id != ctx->slave`, and no discovery address that fits instead.
  unfoldable pub wrong_unit : Modbus W → ℕ → Bool
  wrong_unit ctx id =
      not (ctx.slave == 0xff)
      && not (id == ctx.slave)
      && (ctx.discovery_addr == 0 || not (id == ctx.discovery_addr))

  -- `(size_t)(length - 1)` of an `int` that may be -1.
  unfoldable pub tcp_unwrap : Modbus W → List ℕ → ℕ → Option Unwrapped
  unfolding wrong_unit
  tcp_unwrap ctx bytes len = if ltb len 8 then some (stopped (pos (8 - len))) else do
    hi ← get_elem? bytes 4
    lo ← get_elem? bytes 5
    let field = u16 (bit_or (hi * 2 ^ 8) lo)
    let total_frame = 7 + field
    if ltb len total_frame then some (stopped (pos (total_frame - len))) else do
      phi ← get_elem? bytes 2
      plo ← get_elem? bytes 3
      let proto_id = u16 (bit_or (phi * 2 ^ 8) plo)
      if not (proto_id == 0) then some (stopped pa_err_protocol) else do
        id ← get_elem? bytes 6
        if wrong_unit ctx id
            then some (stopped pa_err_invalid_slave)
            else some (pdu_at 7 (size_t (field + 2 ^ 64 - 1)))
