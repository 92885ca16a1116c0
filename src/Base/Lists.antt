-- ===== src/Base/Lists.antt =====
-- Lists measured by native numbers, under the library's names, and two searches.
use Prim.Native.Nat.{ℕ, zero, suc, ◌+◌}
use mathlib.Core.Logic.{◌⊎◌, inl, inr}
use mathlib.Core.Path.{◌≡◌, refl}
use mathlib.Core.List.{List, [], ◌∷◌, ◌++◌}
use mathlib.Core.Option.{Option, none, some}
use native.Mathlib.Omega.{arith}

module _ {ℓ} {A : Type ℓ} where
  abbrev pub length : List A → ℕ
  length [] = 0
  length (x ∷ xs) = suc (length xs)

  abbrev pub get_last? : List A → Option A
  get_last? [] = none
  get_last? (x ∷ []) = some x
  get_last? (x ∷ y ∷ ys) = get_last? (y ∷ ys)

  abbrev pub All {κ} : (A → Type κ) → List A → Type κ
  All P [] = Unit
  All P (x ∷ xs) = P x × All P xs

  pub get_last?_of_cons : (x : A) (xs : List A) → (y : A) × (get_last? (x ∷ xs) ≡ some y)
  get_last?_of_cons x [] = (x, refl)
  get_last?_of_cons x (y ∷ ys) = get_last?_of_cons y ys

  abbrev pub take : ℕ → List A → List A
  take zero xs = []
  take (suc n) [] = []
  take (suc n) (x ∷ xs) = x ∷ take n xs

  pub length-append : (xs ys : List A) → length (xs ++ ys) ≡ length xs + length ys
  length-append [] ys = omega arith
  length-append (x ∷ xs) ys = omega (arith, length-append xs ys)

  pub All-append {κ} : (P : A → Type κ) (xs ys : List A) → All P xs → All P ys → All P (xs ++ ys)
  All-append P [] ys hx hy = hy
  All-append P (x ∷ xs) ys hx hy = (hx.0, All-append P xs ys hx.1 hy)

  abbrev pub Any : (A → Type 0) → List A → Type 0
  Any P [] = ⊥
  Any P (x ∷ xs) = P x ⊎ Any P xs

  pub Any-append_left : (P : A → Type 0) (xs ys : List A) → Any P xs → Any P (xs ++ ys)
  Any-append_left P [] ys q = absurd q
  Any-append_left P (x ∷ xs) ys (inl p) = inl p
  Any-append_left P (x ∷ xs) ys (inr q) = inr (Any-append_left P xs ys q)

  pub Any-append_right : (P : A → Type 0) (xs ys : List A) → Any P ys → Any P (xs ++ ys)
  Any-append_right P [] ys q = q
  Any-append_right P (x ∷ xs) ys q = inr (Any-append_right P xs ys q)
