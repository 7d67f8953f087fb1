-- ===== src/Pdu/Respond/Framed.antt =====
-- What a case of `pa_modbus_slave_respond` (src/pdu.c) leaves over RTU, and the bounds of its arrays.
use pamodbus.Common.{ℕ, ◌+◌, ◌≤◌, List, [], ◌∷◌, Option, none, some, Bool, true, false}
use pamodbus.Common.{
  ◌≡◌, refl, sym, ◌∙◌, arith, length, store-some, load-some, subst, Bool-cases, inl, inr, ltb,
  is_zero, ℤ, if◌then◌else◌, deref, u8, low_bits, shr, ◌>>=◌,
}
use pamodbus.Crc.Reference.{pa_crc16-some}
use pamodbus.Context.{Modbus, rtu_ops, WriteOneFn, WriteManyFn}
use pamodbus.Context.Valid.{IsValid, Keeps, keeps}
use pamodbus.Framer.Outcome.{Wrapped, framed, refused}
use pamodbus.Framer.Ops.{wrap-rtu_wrap}
use pamodbus.Framer.Rtu.{rtu_wrap}
use pamodbus.Pdu.Wire.Access.{put16-some}
use pamodbus.Pdu.Build.{finish, wrapped}
use pamodbus.Pdu.Respond.{send_reply}
use pamodbus.Pdu.Respond.Answer.{Reply, built, early, after_write_one, after_write_many}
use pamodbus.Pdu.Respond.Write.{echo}

-- A valid context over RTU with a transmit buffer of the size that is given.
pub record IsFramed {W : Type 0} (ctx : Modbus W) : Type 0 where
  pub valid : IsValid ctx
  pub over_rtu : ctx.framer ≡ rtu_ops
  pub size : ctx.txbuf_size ≤ length (deref ctx.txbuf)
  pub room : 256 ≤ length (deref ctx.txbuf)

-- The framer returns, with at most the transmit buffer changed.
data Wraps {W : Type 0} (ctx : Modbus W) : Option (Wrapped W) → Type 0 where
  wraps : {n : ℕ} {buf : List ℕ} → Wraps ctx (some (framed n (record ctx { txbuf = some buf })))
  refuses : {ret : ℤ} → Wraps ctx (some (refused ret))

module _ {W : Type 0} (ctx : Modbus W) (r : IsFramed ctx) where
  rtu_wrap-Wraps : (n : ℕ) → Wraps ctx (rtu_wrap ctx n)
  unfolding rtu_wrap
  rtu_wrap-Wraps n = elim (Bool-cases (ltb ctx.txbuf_size (1 + n + 2))) [
    | inl e ↦ rw (rtu_wrap, e) refuses
    | inr e ↦
        let mem = deref ctx.txbuf in
        let fits : 1 + n + 2 ≤ length mem = ground (arith, r.size) in
        let (pdu, e₁, l₁) = load-some mem 0 n (omega arith) in
        let (b₁, e₂, l₂) = store-some mem 1 pdu (omega arith) in
        let (b₂, e₃, l₃) = store-some b₁ 0 (ctx.slave ∷ []) (omega arith) in
        let (crc, e₄) = pa_crc16-some b₂ (1 + n) (omega arith) in
        let (b₃, e₅, l₅) = store-some b₂ (1 + n) (u8 (low_bits crc 8) ∷ []) (omega arith) in
        let (b₄, e₆, l₆) =
          store-some b₃ (1 + n + 1) (u8 (low_bits (shr crc 8) 8) ∷ []) (omega arith) in
        rw (rtu_wrap, e, e₁, e₂, e₃, e₄, e₅, e₆) (wraps {buf = b₄})
  ]

  wrapped-Keeps : (o : Option (Wrapped W)) → Wraps ctx o → Keeps (o >>= λ w. some (wrapped ctx w))
  unfolding wrapped
  wrapped-Keeps o (wraps {n} {buf}) = let v = r.valid in keeps (omega arith)
  wrapped-Keeps o refuses = keeps r.valid

  pub finish-Keeps : (n : ℕ) → Keeps (finish ctx n)
  unfolding finish
  finish-Keeps n =
      subst (λ o. Keeps (o >>= λ w. some (wrapped ctx w))) (sym (wrap-rtu_wrap ctx r.over_rtu n))
        (wrapped-Keeps (rtu_wrap ctx n) (rtu_wrap-Wraps n))

-- A case returns: a PDU is built in such a context, or the context is valid.
pub data Answers {W : Type 0} : Option (Reply W) → Type 0 where
  answers : {n : ℕ} {ctx : Modbus W} → IsFramed ctx → Answers (some (built n ctx))
  returns : {ret : ℤ} {ctx : Modbus W} → IsValid ctx → Answers (some (early ret ctx))

pub send_reply-Keeps : {W : Type 0} {o : Option (Reply W)} → Answers o → Keeps (o >>= send_reply)
unfolding send_reply
send_reply-Keeps (answers {n} {ctx} r) = finish-Keeps ctx r n
send_reply-Keeps (returns v) = keeps v

module _ {W : Type 0} where
  pub Answers-bind :
      {A : Type 0} {o : Option A} (f : A → Option (Reply W)) {a : A}
      → o ≡ some a
      → Answers (f a)
      → Answers (o >>= f)
  Answers-bind f e k = rw e k

  pub Answers-when :
      (b : Bool) {x y : Option (Reply W)}
      → (b ≡ true → Answers x)
      → (b ≡ false → Answers y)
      → Answers (if b then x else y)
  Answers-when true hx hy = hx refl
  Answers-when false hx hy = hy refl

  pub Answers-if :
      (b : Bool) {x y : Option (Reply W)} → Answers x → Answers y → Answers (if b then x else y)
  Answers-if true hx hy = hx
  Answers-if false hx hy = hy

-- A case by whether a callback is registered, and of one that is registered what is known of it.
pub Answers-elim :
    {W A : Type 0} (P : Option A → Type 0) (o : Option A) {x : Option (Reply W)}
    {f : A → Option (Reply W)}
    → P o
    → Answers x
    → ((a : A) → P (some a) → Answers (f a))
    → Answers (elim o [ none ↦ x | some a ↦ f a ])
Answers-elim P none h hx hf = hx
Answers-elim P (some a) h hx hf = hf a h

module _ {W : Type 0} (ctx : Modbus W) (r : IsFramed ctx) where
  -- The world may change, and the buffer for one of the same size.
  pub moved : (w : W) → IsFramed (record ctx { world = w })
  moved w =
      let v = r.valid in
      record { valid = omega arith; over_rtu = r.over_rtu; size = r.size; room = r.room }

  pub refilled :
      (buf : List ℕ)
      → length buf ≡ length (deref ctx.txbuf)
      → IsFramed (record ctx { txbuf = some buf })
  refilled buf l =
      let v = r.valid in
      record {
        valid = omega arith;
        over_rtu = r.over_rtu;
        size = omega (arith, r.size);
        room = omega (arith, r.room);
      }

module _ {W : Type 0} (ctx : Modbus W) (r : IsFramed ctx) where
  pub echo-Answers : (fc a b : ℕ) → Answers (echo ctx fc a b)
  unfolding echo
  echo-Answers fc a b =
      let (b₁, e₁, l₁) = store-some (deref ctx.txbuf) 0 (fc ∷ []) (omega (arith, r.room)) in
      let (b₂, e₂, l₂) = put16-some b₁ 1 a (omega (arith, r.room)) in
      let (b₃, e₃, l₃) = put16-some b₂ 3 b (omega (arith, r.room)) in
      rw (echo, e₁, e₂, e₃) (answers (refilled ctx r b₃ (l₃ ∙ l₂ ∙ l₁)))

  pub after_write_one-Answers :
      (o : Option (WriteOneFn W)) (a v : ℕ) (k : Modbus W → Option (Reply W))
      → ((w : W) → Answers (k (record ctx { world = w })))
      → Answers (after_write_one ctx o a v k)
  unfolding after_write_one
  after_write_one-Answers none a v k h = returns r.valid
  after_write_one-Answers (some cb) a v k h =
      let w = (cb a v ctx.world).1 in
      Answers-if (is_zero (cb a v ctx.world).0) (h w) (returns (moved ctx r w).valid)

  pub after_write_many-Answers :
      (o : Option (WriteManyFn W)) (a n : ℕ) (vs : List ℕ) (k : Modbus W → Option (Reply W))
      → ((w : W) → Answers (k (record ctx { world = w })))
      → Answers (after_write_many ctx o a n vs k)
  unfolding after_write_many
  after_write_many-Answers none a n vs k h = returns r.valid
  after_write_many-Answers (some cb) a n vs k h =
      let w = (cb a n vs ctx.world).1 in
      Answers-if (is_zero (cb a n vs ctx.world).0) (h w) (returns (moved ctx r w).valid)
