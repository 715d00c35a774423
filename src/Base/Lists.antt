-- ===== src/Base/Lists.antt =====
-- Lists measured by native numbers, membership of a number as a test, removal of a key.
use Prim.Native.Nat.{ℕ, suc, ◌+◌}
use mathlib.Core.Path.{◌≡◌, refl}
use mathlib.Core.Logic.{inl, inr}
use native.Mathlib.Omega.{arith}
use mathlib.Core.Bool.{Bool, false, ◌||◌}
use mathlib.Core.List.{List, [], ◌∷◌}
use mathlib.Core.Option.{Option, none, some}
use bluechat.Base.Tests.{◌==◌, if◌then◌else◌, is_some, Bool-cases, eq_of_test}

abbrev pub length {ℓ} : {A : Type ℓ} → List A → ℕ
length [] = 0
length (x ∷ xs) = suc (length xs)

-- `u in xs`
abbrev pub elem : ℕ → List ℕ → Bool
elem u [] = false
elem u (x ∷ xs) = (u == x) || elem u xs

-- The value that an association list holds at a key.
abbrev pub lookup {ℓ} : {V : Type ℓ} → ℕ → List (ℕ × V) → Option V
lookup k [] = none
lookup k ((j, v) ∷ m) = if k == j then some v else lookup k m

-- No key stands twice.
abbrev pub Distinct {ℓ} : {V : Type ℓ} → List (ℕ × V) → Type ℓ
Distinct [] = Unit
Distinct ((j, v) ∷ m) = (lookup j m ≡ none) × Distinct m

-- The pairs whose key is another.
abbrev pub drop_key {ℓ} : {V : Type ℓ} → ℕ → List (ℕ × V) → List (ℕ × V)
drop_key k [] = []
drop_key k ((j, v) ∷ m) = if j == k then drop_key k m else (j, v) ∷ drop_key k m

pub lookup-drop_key {ℓ} :
    {V : Type ℓ} (k j : ℕ) (m : List (ℕ × V))
    → lookup k (drop_key j m) ≡ (if k == j then none else lookup k m)
lookup-drop_key k j [] = ground arith
lookup-drop_key k j ((i, v) ∷ m) = ground (arith, lookup-drop_key k j m)

pub Distinct-drop_key {ℓ} :
    {V : Type ℓ} (k : ℕ) (m : List (ℕ × V)) → Distinct m → Distinct (drop_key k m)
Distinct-drop_key k [] h = tt
Distinct-drop_key k ((j, v) ∷ m) (fresh, h) = elim (Bool-cases (j == k)) [
  | inl same ↦ rw same (Distinct-drop_key k m h)
  | inr other ↦ rw other (ground (arith, lookup-drop_key j k m, fresh), Distinct-drop_key k m h)
]

-- A key that stands once is one place less.
pub length-drop_key {ℓ} :
    {V : Type ℓ} (k : ℕ) (m : List (ℕ × V))
    → Distinct m
    → length (drop_key k m) + (if is_some (lookup k m) then 1 else 0) ≡ length m
length-drop_key k [] h = refl
length-drop_key k ((j, v) ∷ m) (fresh, h) = elim (Bool-cases (j == k)) [
  | inl same ↦ ground (arith, same, eq_of_test j k same, fresh, length-drop_key k m h)
  | inr other ↦ ground (arith, other, length-drop_key k m h)
]
