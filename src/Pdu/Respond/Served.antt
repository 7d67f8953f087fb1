-- ===== src/Pdu/Respond/Served.antt =====
-- The reading cases of `pa_modbus_slave_respond` (src/pdu.c) and callbacks that fill what is asked.
use pamodbus.Common.{ℕ, ◌+◌, ◌*◌, ◌≤◌, List, [], ◌∷◌, ◌/◌, Option, none, some, true, min}
use pamodbus.Common.{
  replicate, ◌≡◌, refl, ◌∙◌, arith, length, get_elem?-some, store-some, load-some, ltb, leb,
  is_zero, if◌then◌else◌, deref, u8, u16, low_bits,
}
use pamodbus.Context.{Modbus, coil_bytes, ReadFn}
use pamodbus.Pdu.Wire.Access.{put_regs-some}
use pamodbus.Pdu.Respond.Answer.{Reply, filled, after_read}
use pamodbus.Pdu.Respond.Read.{
  respond_bits, respond_regs, respond_status, respond_event_counter, respond_event_log,
  respond_server_id,
}
use pamodbus.Pdu.Respond.Write.{}
use pamodbus.Pdu.Respond.Framed.{IsFramed, Answers, answers, returns, Answers-when, moved, refilled}

-- What a read callback promises, where `size n` is the length of an array for `n` elements: it stores
-- no more than that, and if it reports success it has filled all of it.
abbrev pub Fills : {W : Type 0} → (ℕ → ℕ) → Option (ReadFn W) → Type 0
Fills size none = Unit {0}
Fills {W} size (some cb) =
    (a n : ℕ) (w : W)
    → (length ((cb a n w).1) ≤ size n)
      × (is_zero ((cb a n w).0) ≡ true → length ((cb a n w).1) ≡ size n)

-- Coils and inputs are packed, eight to a byte.
pub record IsServed {W : Type 0} (ctx : Modbus W) : Type 0 where
  pub coils : Fills (λ n. (n + 7) / 8) ctx.callbacks.read_coils_cb
  pub inputs : Fills (λ n. (n + 7) / 8) ctx.callbacks.read_discrete_inputs_cb
  pub holding : Fills (λ n. n) ctx.callbacks.read_holding_registers_cb
  pub input_regs : Fills (λ n. n) ctx.callbacks.read_input_registers_cb

pub filled-some : (n : ℕ) (vs : List ℕ) → length vs ≤ n → filled n vs ≡ some vs
unfolding filled
filled-some n vs h = let fits : leb (length vs) n ≡ true = ground arith in rw fits refl

module _ {W : Type 0} (ctx : Modbus W) (r : IsFramed ctx) where
  pub after_read-Answers :
      (size : ℕ → ℕ) (o : Option (ReadFn W)) (a n : ℕ) (k : Modbus W → List ℕ → Option (Reply W))
      → Fills size o
      → ((w : W) (vs : List ℕ) → length vs ≡ size n → Answers (k (record ctx { world = w }) vs))
      → Answers (after_read ctx o a n k)
  unfolding after_read
  after_read-Answers size none a n k gives h = returns r.valid
  after_read-Answers size (some cb) a n k gives h =
      let w = (cb a n ctx.world).2 in
      Answers-when (is_zero (cb a n ctx.world).0)
        (λ ok. h w (cb a n ctx.world).1 ((gives a n ctx.world).1 ok))
        (λ bad. returns (moved ctx r w).valid)

  pub respond_bits-Answers :
      (fc : ℕ) (o : Option (ReadFn W))
      → Fills (λ n. (n + 7) / 8) o
      → ctx.slave_count ≤ 264
      → Answers (respond_bits ctx fc o)
  unfolding respond_bits
  respond_bits-Answers fc o gives few =
      after_read-Answers (λ n. (n + 7) / 8) o ctx.slave_addr ctx.slave_count _ gives
        λ w vs e.
          let n = u16 ((ctx.slave_count + 7) / 8) in
          let small : n ≤ 33 = omega arith in
          let (stored, e₀, l₀) = store-some (replicate coil_bytes 0) 0 vs (omega arith) in
          let (b₁, e₁, l₁) = store-some (deref ctx.txbuf) 0 (fc ∷ []) (omega (arith, r.room)) in
          let (b₂, e₂, l₂) = store-some b₁ 1 (u8 n ∷ []) (omega (arith, r.room)) in
          let (bytes, e₃, l₃) = load-some stored 0 n (omega arith) in
          let (b₄, e₄, l₄) = store-some b₂ 2 bytes (omega (arith, r.room)) in
          rw (e₀, e₁, e₂, e₃, e₄)
            (answers (refilled (record ctx { world = w }) (moved ctx r w) b₄ (l₄ ∙ l₂ ∙ l₁)))

  pub respond_regs-Answers :
      (fc : ℕ) (o : Option (ReadFn W))
      → Fills (λ n. n) o
      → ctx.slave_count ≤ 125
      → Answers (respond_regs ctx fc o)
  unfolding respond_regs
  respond_regs-Answers fc o gives few =
      after_read-Answers (λ n. n) o ctx.slave_addr ctx.slave_count _ gives
        λ w vs e.
          let n = u16 (ctx.slave_count * 2) in
          let (b₁, e₁, l₁) = store-some (deref ctx.txbuf) 0 (fc ∷ []) (omega (arith, r.room)) in
          let (b₂, e₂, l₂) = store-some b₁ 1 (u8 n ∷ []) (omega (arith, r.room)) in
          let (b₃, e₃, l₃) =
            put_regs-some b₂ 2 vs 0 0 ctx.slave_count (omega arith) (omega (arith, r.room)) in
          rw (filled-some 128 vs (omega arith), e₁, e₂, e₃)
            (answers (refilled (record ctx { world = w }) (moved ctx r w) b₃ (l₃ ∙ l₂ ∙ l₁)))

  module _ (fc : ℕ) where
    pub respond_status-Answers :
        Fills (λ n. (n + 7) / 8) ctx.callbacks.read_coils_cb → Answers (respond_status ctx fc)
    unfolding respond_status
    respond_status-Answers gives =
        after_read-Answers (λ n. (n + 7) / 8) ctx.callbacks.read_coils_cb 0 8 _ gives
          λ w vs e.
            let (b₁, e₁, l₁) = store-some (deref ctx.txbuf) 0 (fc ∷ []) (omega (arith, r.room)) in
            let (byte, e₂) = get_elem?-some vs 0 (omega arith) in
            let (b₂, e₃, l₃) = store-some b₁ 1 (byte ∷ []) (omega (arith, r.room)) in
            rw (filled-some 1 vs (omega arith), e₁, e₂, e₃)
              (answers (refilled (record ctx { world = w }) (moved ctx r w) b₂ (l₃ ∙ l₁)))

    pub respond_event_counter-Answers :
        Fills (λ n. n) ctx.callbacks.read_holding_registers_cb
        → Answers (respond_event_counter ctx fc)
    unfolding respond_event_counter
    respond_event_counter-Answers gives =
        after_read-Answers (λ n. n) ctx.callbacks.read_holding_registers_cb 0xfffe 2 _ gives
          λ w vs e.
            let (b₁, e₁, l₁) = store-some (deref ctx.txbuf) 0 (fc ∷ []) (omega (arith, r.room)) in
            let (b₂, e₂, l₂) = put_regs-some b₁ 1 vs 0 0 2 (omega arith) (omega (arith, r.room)) in
            rw (filled-some 2 vs (omega arith), e₁, e₂)
              (answers (refilled (record ctx { world = w }) (moved ctx r w) b₂ (l₂ ∙ l₁)))

    pub respond_event_log-Answers :
        Fills (λ n. n) ctx.callbacks.read_holding_registers_cb → Answers (respond_event_log ctx fc)
    unfolding respond_event_log
    respond_event_log-Answers gives =
        after_read-Answers (λ n. n) ctx.callbacks.read_holding_registers_cb 0xfffc 5 _ gives
          λ w vs e.
            let (b₁, e₁, l₁) = store-some (deref ctx.txbuf) 0 (fc ∷ []) (omega (arith, r.room)) in
            let (b₂, e₂, l₂) = store-some b₁ 1 (10 ∷ []) (omega (arith, r.room)) in
            let (b₃, e₃, l₃) = put_regs-some b₂ 2 vs 0 0 5 (omega arith) (omega (arith, r.room)) in
            rw (filled-some 5 vs (omega arith), e₁, e₂, e₃)
              (answers (refilled (record ctx { world = w }) (moved ctx r w) b₃ (l₃ ∙ l₂ ∙ l₁)))

    pub respond_server_id-Answers :
        Fills (λ n. n) ctx.callbacks.read_holding_registers_cb → Answers (respond_server_id ctx fc)
    unfolding respond_server_id
    respond_server_id-Answers gives =
        after_read-Answers (λ n. n) ctx.callbacks.read_holding_registers_cb 0xfff0 64 _ gives
          λ w vs e.
            let (first, e₀) = get_elem?-some vs 0 (omega arith) in
            let asked = u8 (low_bits first 8) in
            let n = if ltb 126 asked then 126 else asked in
            let count = min (u16 (n + 1) / 2) 63 in
            let few : count ≤ 63 = ground arith in
            let (b₁, e₁, l₁) = store-some (deref ctx.txbuf) 0 (fc ∷ []) (omega (arith, r.room)) in
            let (b₂, e₂, l₂) = store-some b₁ 1 (n ∷ []) (omega (arith, r.room)) in
            let (b₃, e₃, l₃) =
              put_regs-some b₂ 2 vs 1 0 count (omega arith) (omega (arith, r.room)) in
            rw (filled-some 64 vs (omega arith), e₀, e₁, e₂, e₃)
              (answers (refilled (record ctx { world = w }) (moved ctx r w) b₃ (l₃ ∙ l₂ ∙ l₁)))
