-- ===== src/Host/SlaveDisco/Identity.antt =====
-- host/slave_disco.c: the identity that `main` fills in.
use pamodbus.Common.{ℕ, zero, suc, ◌+◌, ◌≤◌, List, [], ◌∷◌, some, ◌≡◌, refl, sym, ap, ◌∙◌, arith}
use mathlib.Core.Option
use pamodbus.Common.{
  subst, length, take, drop, get_elem?, get_elem?-some, store, store-some, store-store,
}
use pamodbus.Common.{◌>>=◌}
use pamodbus.Host.SlaveDisco.{Library, copy_serialno}

store-nil : (buf : List ℕ) (k : ℕ) → k ≤ length buf → store buf k [] ≡ some buf
unfolding store
store-nil buf zero h = refl
store-nil [] (suc k) h = absurd (omega arith)
store-nil (x ∷ xs) (suc k) h = ap (Option.map (◌∷◌ x)) (store-nil xs k (omega arith))

take-front :
    (left i : ℕ) (xs : List ℕ) {x : ℕ}
    → get_elem? xs i ≡ some x
    → take (suc left) (drop i xs) ≡ x ∷ take left (drop (i + 1) xs)
take-front left i [] e = cc
take-front left zero (x ∷ xs) e = cc
take-front left (suc i) (x ∷ xs) e =
    let n : suc i + 1 ≡ suc (i + 1) = omega arith in rw n (take-front left i xs e)

module _ {W D M : Type 0} (lib : Library W D M) where
  -- The loop that fills the identity in is a copy of the serial number as it is at that time: inside both arrays,
  -- it stores the `left` words from `serialno + i` on at `holding + PA_DISCO_REG_START + 1 + i`, and touches no
  -- other word.
  pub copy_serialno-store :
      (i left : ℕ) (serialno holding : List ℕ)
      → i + left ≤ length serialno
      → lib.reg_start + 1 + i + left ≤ length holding
      → copy_serialno lib i left serialno holding
        ≡ store holding (lib.reg_start + 1 + i) (take left (drop i serialno))
  unfolding copy_serialno
  copy_serialno-store i zero serialno holding from to =
      sym (store-nil holding (lib.reg_start + 1 + i) (omega arith))
  copy_serialno-store i (suc left) serialno holding from to =
      let at = lib.reg_start + 1 + i in
      let (word, got) = get_elem?-some serialno i (omega arith) in
      let (b, put, size) = store-some holding at (word ∷ []) (omega arith) in
      let next : lib.reg_start + 1 + (i + 1) ≡ at + 1 = omega arith in
      let rest = take left (drop (i + 1) serialno) in
      let more : copy_serialno lib (i + 1) left serialno b ≡ store b (at + 1) rest =
        subst (λ k. copy_serialno lib (i + 1) left serialno b ≡ store b k rest) next
          (copy_serialno-store (i + 1) left serialno b (omega arith) (omega arith)) in
      let both : store b (at + 1) rest ≡ store holding at (word ∷ rest) =
        sym (ap (λ o. o >>= λ c. store c (at + 1) rest) put)
        ∙ store-store holding at (word ∷ []) rest in
      rw (copy_serialno, got, put)
        (more ∙ both ∙ ap (store holding at) (sym (take-front left i serialno got)))
