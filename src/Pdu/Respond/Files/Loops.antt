-- ===== src/Pdu/Respond/Files/Loops.antt =====
-- The loops over file records, FC 14 and 15 of src/pdu.c: what each round keeps, the end keeps.
use pamodbus.Common.{ℕ, zero, suc, ◌<◌, Option, some, Bool, true, false}
use pamodbus.Common.{◌≡◌, refl, arith, if◌then◌else◌, ◌>>=◌}
use pamodbus.Pdu.Respond.Files.{LoopEnd, left, failed, next, rounds}

-- A loop has ended in a state with the property.
pub data Ends {S : Type 0} (Inv : S → Type 0) : Option (LoopEnd S) → Type 0 where
  ends_left : {s : S} → Inv s → Ends Inv (some (left s))
  ends_failed : {s : S} → Inv s → Ends Inv (some (failed s))

-- A round keeps the property, and brings the measure below a number unless it is the last.
pub data Rounded {S : Type 0} (Inv : S → Type 0) (size : S → ℕ) (n : ℕ)
    : Option (LoopEnd S) → Type 0 where
  ended : {o : Option (LoopEnd S)} → Ends Inv o → Rounded Inv size n o
  goes_on : {s : S} → Inv s → size s < n → Rounded Inv size n (some (next s))

module _ {S : Type 0} (Inv : S → Type 0) (size : S → ℕ) where
  pub Rounded-if :
      {n : ℕ} (b : Bool) {x y : Option (LoopEnd S)}
      → (b ≡ true → Rounded Inv size n x)
      → (b ≡ false → Rounded Inv size n y)
      → Rounded Inv size n (if b then x else y)
  Rounded-if true f g = f refl
  Rounded-if false f g = g refl

  module _ (round : S → Option (LoopEnd S))
      (keeps_on : (s : S) → Inv s → Rounded Inv size (size s) (round s)) where
    pub rounds-Ends : (fuel : ℕ) (s : S) → Inv s → size s < fuel → Ends Inv (rounds round fuel s)
    unfolding rounds
    rounds-Ends zero s i h = absurd (omega arith)
    rounds-Ends (suc fuel) s i h =
        step (size s) (round s) (keeps_on s i)
          (λ t it smaller. rounds-Ends fuel t it (omega (arith, h, smaller)))
      where
        step :
            (n : ℕ) (o : Option (LoopEnd S))
            → Rounded Inv size n o
            → ((t : S) → Inv t → size t < n → Ends Inv (rounds round fuel t))
            → Ends Inv (
                o >>= λ e. elim e [
                  | next t ↦ rounds round fuel t
                  | left t ↦ some (left t)
                  | failed t ↦ some (failed t)
                ])
        step n o (ended (ends_left it)) ih = ends_left it
        step n o (ended (ends_failed it)) ih = ends_failed it
        step n o (goes_on {s} it smaller) ih = ih s it smaller
