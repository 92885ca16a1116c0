-- ===== src/Base/Tests.antt =====
-- Boolean tests on native numbers, the conditional, case lemmas, and state passing.
use Prim.Native.Nat.{ℕ, compare, Ordering}
use mathlib.Core.Path.{◌≡◌, refl}
use mathlib.Core.Logic.{◌≢◌, ◌↔◌, ◌⊎◌, inl, inr}
use mathlib.Core.Bool.{Bool, true, false}
use mathlib.Core.Option.{Option, none, some}
use native.Mathlib.Omega.{arith}

abbrev pub ltb : ℕ → ℕ → Bool
ltb a b = elim (compare a b) [ Ordering.lt ↦ true | _ ↦ false ]

abbrev pub leb : ℕ → ℕ → Bool
leb a b = elim (compare a b) [ Ordering.gt ↦ false | _ ↦ true ]

infix 50 ◌==◌
abbrev pub ◌==◌ : ℕ → ℕ → Bool
a == b = elim (compare a b) [ Ordering.eq ↦ true | _ ↦ false ]

infix 1 if◌then◌else◌
abbrev pub if◌then◌else◌ {ℓ} : {A : Type ℓ} → Bool → A → A → A
if true then x else y = x
if false then x else y = y

pub ==_iff : (a b : ℕ) → ((a == b) ≡ true) ↔ (a ≡ b)
==_iff a b = ground arith

pub true-ne-false : {b : Bool} → b ≡ true → b ≢ false
true-ne-false t f = cc

-- To split on a computed value and keep the equation.
pub Bool-cases : (b : Bool) → (b ≡ true) ⊎ (b ≡ false)
Bool-cases true = inl refl
Bool-cases false = inr refl

pub Option-cases {ℓ} : {A : Type ℓ} (o : Option A) → (o ≡ none) ⊎ ((a : A) × (o ≡ some a))
Option-cases none = inl refl
Option-cases (some a) = inr (a, refl)

-- Go's test `err != nil`.
abbrev pub is_some {ℓ} : {A : Type ℓ} → Option A → Bool
is_some none = false
is_some (some a) = true

-- A call that reads and writes a state of type `S`.
abbrev pub Action : Type 0 → Type 0 → Type 0
Action S A = S → A × S

module _ {S A : Type 0} where
  abbrev pub pure : A → Action S A
  pure a s = (a, s)

  abbrev pub gets : (S → A) → Action S A
  gets f s = (f s, s)

abbrev pub modify : {S : Type 0} → (S → S) → Action S (Unit {0})
modify f s = (tt, f s)

infixl 5 ◌>>=◌ ◌>>◌
abbrev pub ◌>>=◌ : {S A B : Type 0} → Action S A → (A → Action S B) → Action S B
◌>>=◌ m f s = let (a, s') = m s in f a s'

abbrev pub ◌>>◌ : {S A B : Type 0} → Action S A → Action S B → Action S B
m >> k = m >>= λ _. k
