-- ===== src/Common/Memory.antt =====
-- Reads and writes of C memory. `none` is an access outside the array, which C leaves undefined.
use Prim.Native.Nat.{ℕ, zero, suc, ◌+◌, ◌≤◌}
use mathlib.Core.Path.{◌≡◌, refl, ap, ◌∙◌}
use mathlib.Core.List.{List, [], ◌∷◌, ◌++◌}
use mathlib.Core.Option.{Option, none, some}
use mathlib.Core.Option
use native.Mathlib.Omega.{arith}
use pamodbus.Common.Lists.{length, take, drop, length-take, length-drop}

infixl 5 ◌>>=◌
abbrev pub ◌>>=◌ {ℓ κ} : {A : Type ℓ} {B : Type κ} → Option A → (A → Option B) → Option B
none >>= f = none
some a >>= f = f a

-- If two steps succeed, then so does the first.
pub >>=-some {ℓ κ} :
    {A : Type ℓ} {B : Type κ} (o : Option A) (f : A → Option B) {r : B}
    → (o >>= f) ≡ some r
    → (a : A) × (o ≡ some a) × (f a ≡ some r)
>>=-some none f h = cc
>>=-some (some a) f h = (a, refl, h)

-- What follows two steps that succeed is run on their result.
pub >>=-then {ℓ κ μ} :
    {A : Type ℓ} {B : Type κ} {C : Type μ} (o : Option A) (f : A → Option B) (g : B → Option C)
    {r : B}
    → (o >>= f) ≡ some r
    → (o >>= λ a. f a >>= g) ≡ g r
>>=-then none f g h = cc
>>=-then (some a) f g h = ap (λ q. q >>= g) h

-- A pointer that may be null: the memory that it points to.
abbrev pub Pointer : Type 0
Pointer = Option (List ℕ)

abbrev pub deref : Pointer → List ℕ
deref none = []
deref (some m) = m

module _ {ℓ} {A : Type ℓ} where
  -- `memcpy(buf + i, bytes, length bytes)`; a plain assignment stores one element.
  unfoldable pub store : List A → ℕ → List A → Option (List A)
  store buf zero [] = some buf
  store [] zero (y ∷ ys) = none
  store (x ∷ xs) zero (y ∷ ys) = Option.map (◌∷◌ y) (store xs zero ys)
  store [] (suc i) ys = none
  store (x ∷ xs) (suc i) ys = Option.map (◌∷◌ x) (store xs i ys)

  -- `buf[i] = v`
  abbrev pub write : List A → ℕ → A → Option (List A)
  write buf i v = store buf i (v ∷ [])

  -- The `n` elements from `buf + i` on.
  unfoldable pub load : List A → ℕ → ℕ → Option (List A)
  load buf zero zero = some []
  load [] zero (suc n) = none
  load (x ∷ xs) zero (suc n) = Option.map (◌∷◌ x) (load xs zero n)
  load [] (suc i) n = none
  load (x ∷ xs) (suc i) n = load xs i n

module _ {ℓ} {A : Type ℓ} where
  map-cons-bind :
      (x : A) (o : Option (List A)) (f g : List A → Option (List A))
      → ((r : List A) → f (x ∷ r) ≡ Option.map (◌∷◌ x) (g r))
      → (Option.map (◌∷◌ x) o >>= f) ≡ Option.map (◌∷◌ x) (o >>= g)
  map-cons-bind x none f g h = refl
  map-cons-bind x (some r) f g h = h r

  -- Two stores side by side are one store.
  pub store-store :
      (buf : List A) (i : ℕ) (xs ys : List A)
      → (store buf i xs >>= λ b. store b (i + length xs) ys) ≡ store buf i (xs ++ ys)
  unfolding store
  store-store buf zero [] ys = refl
  store-store [] zero (x ∷ xs) ys = refl
  store-store (b ∷ buf) zero (x ∷ xs) ys =
      map-cons-bind x (store buf zero xs) _ (λ r. store r (0 + length xs) ys)
        (λ r. let e : 0 + suc (length xs) ≡ suc (0 + length xs) = omega arith in rw e refl)
      ∙ ap (Option.map (◌∷◌ x)) (store-store buf zero xs ys)
  store-store [] (suc i) xs ys = refl
  store-store (b ∷ buf) (suc i) xs ys =
      map-cons-bind b (store buf i xs) _ (λ r. store r (i + length xs) ys)
        (λ r. let e : suc i + length xs ≡ suc (i + length xs) = omega arith in rw e refl)
      ∙ ap (Option.map (◌∷◌ b)) (store-store buf i xs ys)

  -- What a store at the front leaves behind.
  pub store-front :
      (buf ys : List A)
      → length ys ≤ length buf
      → store buf 0 ys ≡ some (ys ++ drop (length ys) buf)
  unfolding store
  store-front buf [] h = refl
  store-front [] (y ∷ ys) h = absurd (omega arith)
  store-front (b ∷ buf) (y ∷ ys) h = ap (Option.map (◌∷◌ y)) (store-front buf ys (omega arith))

  -- A load inside the array gives the elements there.
  pub load-take :
      (buf : List A) (i n : ℕ) → i + n ≤ length buf → load buf i n ≡ some (take n (drop i buf))
  unfolding load
  load-take buf zero zero h = refl
  load-take [] zero (suc n) h = absurd (omega arith)
  load-take (x ∷ xs) zero (suc n) h = ap (Option.map (◌∷◌ x)) (load-take xs zero n (omega arith))
  load-take [] (suc i) n h = absurd (omega arith)
  load-take (x ∷ xs) (suc i) n h = load-take xs i n (omega arith)

  -- A store inside the array does not fault, and keeps the array's size.
  pub store-some :
      (buf : List A) (i : ℕ) (ys : List A)
      → i + length ys ≤ length buf
      → (b : List A) × (store buf i ys ≡ some b) × (length b ≡ length buf)
  unfolding store
  store-some buf zero [] h = (buf, refl, refl)
  store-some [] zero (y ∷ ys) h = absurd (omega arith)
  store-some (x ∷ xs) zero (y ∷ ys) h =
      let (b, e, l) = store-some xs zero ys (omega arith) in
      (y ∷ b, ap (Option.map (◌∷◌ y)) e, ap suc l)
  store-some [] (suc i) ys h = absurd (omega arith)
  store-some (x ∷ xs) (suc i) ys h =
      let (b, e, l) = store-some xs i ys (omega arith) in
      (x ∷ b, ap (Option.map (◌∷◌ x)) e, ap suc l)

  -- A store behind another one may as well be made first.
  pub store-behind :
      (buf xs ys : List A)
      → (store buf (length xs) ys >>= λ b. store b 0 xs) ≡ store buf 0 (xs ++ ys)
  unfolding store
  store-behind buf [] ys = keep (store buf 0 ys)
    where
      keep : (o : Option (List A)) → (o >>= some) ≡ o
      keep none = refl
      keep (some b) = refl
  store-behind [] (x ∷ xs) ys = refl
  store-behind (b ∷ buf) (x ∷ xs) ys =
      swap (store buf (length xs) ys) ∙ ap (Option.map (◌∷◌ x)) (store-behind buf xs ys)
    where
      swap :
          (o : Option (List A))
          → (Option.map (◌∷◌ b) o >>= λ c. store c 0 (x ∷ xs))
            ≡ Option.map (◌∷◌ x) (o >>= λ c. store c 0 xs)
      swap none = refl
      swap (some c) = refl

  -- A store behind the first part of an array leaves that part alone.
  pub store-append :
      (xs buf ys : List A)
      → store (xs ++ buf) (length xs) ys ≡ Option.map (◌++◌ xs) (store buf 0 ys)
  unfolding store
  store-append [] buf ys = same (store buf 0 ys)
    where
      same : (o : Option (List A)) → o ≡ Option.map (◌++◌ []) o
      same none = refl
      same (some b) = refl
  store-append (x ∷ xs) buf ys =
      ap (Option.map (◌∷◌ x)) (store-append xs buf ys) ∙ fuse (store buf 0 ys)
    where
      fuse :
          (o : Option (List A))
          → Option.map (◌∷◌ x) (Option.map (◌++◌ xs) o) ≡ Option.map (◌++◌ (x ∷ xs)) o
      fuse none = refl
      fuse (some b) = refl

  -- Loading the first part of an array.
  pub load-append : (xs buf : List A) → load (xs ++ buf) 0 (length xs) ≡ some xs
  unfolding load
  load-append [] [] = refl
  load-append [] (b ∷ buf) = refl
  load-append (x ∷ xs) buf = ap (Option.map (◌∷◌ x)) (load-append xs buf)

  -- A load inside the array gives as many elements as asked for.
  pub load-some :
      (buf : List A) (i n : ℕ)
      → i + n ≤ length buf
      → (xs : List A) × (load buf i n ≡ some xs) × (length xs ≡ n)
  load-some buf i n h = (
    take n (drop i buf),
    load-take buf i n h,
    omega (arith, length-take n (drop i buf), length-drop i buf),
  )
