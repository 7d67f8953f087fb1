-- ===== src/Common/Switch.antt =====
-- The C statement `switch`: the first label that fits, or the default.
use Prim.Native.Nat.{ℕ, ◌<◌, ◌≤◌}
use mathlib.Core.Path.{◌≡◌, refl}
use mathlib.Core.Bool.{false}
use native.Mathlib.Omega.{arith}
use mathlib.Core.List.{List, [], ◌∷◌}
use mathlib.Core.Logic.{inl, inr}
use pamodbus.Common.Tests.{◌==◌, if◌then◌else◌, Bool-cases}

abbrev pub switch {ℓ} : {A : Type ℓ} → ℕ → List (ℕ × A) → A → A
switch n [] d = d
switch n ((label, a) ∷ cases) d = if n == label then a else switch n cases d

-- Each case has the property.
abbrev pub AllCases {ℓ κ} : {A : Type ℓ} → (A → Type κ) → List (ℕ × A) → Type κ
AllCases P [] = Unit
AllCases P ((label, a) ∷ cases) = P a × AllCases P cases

-- The proofs for the cases, in a row.
infixr 20 ◌&◌
abbrev pub ◌&◌ {ℓ κ} : {A : Type ℓ} {B : Type κ} → A → B → A × B
a & b = (a, b)

-- What every case and the default have, the statement has.
pub switch-all {ℓ κ} :
    {A : Type ℓ} (P : A → Type κ) (n : ℕ) (cases : List (ℕ × A)) (d : A)
    → AllCases P cases
    → P d
    → P (switch n cases d)
switch-all P n [] d h hd = hd
switch-all P n ((label, a) ∷ cases) d h hd = elim (Bool-cases (n == label)) [
  | inl e ↦ rw e h.0
  | inr e ↦ rw e (switch-all P n cases d h.1 hd)
]

-- Each case has the property when the number is its label.
abbrev pub LabelCases {ℓ κ} : {A : Type ℓ} → (A → Type κ) → ℕ → List (ℕ × A) → Type κ
LabelCases P n [] = Unit
LabelCases P n ((label, a) ∷ cases) = (n ≡ label → P a) × LabelCases P n cases

pub switch-labels {ℓ κ} :
    {A : Type ℓ} (P : A → Type κ) (n : ℕ) (cases : List (ℕ × A)) (d : A)
    → LabelCases P n cases
    → P d
    → P (switch n cases d)
switch-labels P n [] d h hd = hd
switch-labels P n ((label, a) ∷ cases) d h hd = elim (Bool-cases (n == label)) [
  | inl e ↦ let here : n ≡ label = ground arith in rw e (h.0 here)
  | inr e ↦ rw e (switch-labels P n cases d h.1 hd)
]

-- Each label is below the bound.
abbrev pub LabelsBelow {ℓ} : {A : Type ℓ} → ℕ → List (ℕ × A) → Type 0
LabelsBelow bound [] = Unit {0}
LabelsBelow bound ((label, a) ∷ cases) = (label < bound) × LabelsBelow bound cases

pub switch-default {ℓ} :
    {A : Type ℓ} (bound n : ℕ) (cases : List (ℕ × A)) (d : A)
    → LabelsBelow bound cases
    → bound ≤ n
    → switch n cases d ≡ d
switch-default bound n [] d h le = refl
switch-default bound n ((label, a) ∷ cases) d h le =
    let small = h.0 in
    let guard : (n == label) ≡ false = ground arith in
    rw guard (switch-default bound n cases d h.1 le)
