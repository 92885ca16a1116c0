-- ===== src/Base/Dict.antt =====
-- A Go map with string keys, as an association list.
use mathlib.Core.Path.{◌≡◌, refl}
use mathlib.Core.Option.{Option, none, some}
use mathlib.Core.List.{List, [], ◌∷◌}
use native.Mathlib.Omega.{arith}
use bitbox_base.Base.Tests.{if◌then◌else◌}
use bitbox_base.Base.Text.{Text, text_eq, text_eq_iff, text_eq_self}

module _ {V : Type 0} where
  unfoldable pub lookup : Text → List (Text × V) → Option V
  lookup k [] = none
  lookup k ((j, v) ∷ m) = if text_eq j k then some v else lookup k m

  unfoldable pub insert : Text → V → List (Text × V) → List (Text × V)
  insert k v [] = (k, v) ∷ []
  insert k v ((j, w) ∷ m) = if text_eq j k then (k, v) ∷ m else (j, w) ∷ insert k v m

  pub lookup-insert :
      (k j : Text) (v : V) (m : List (Text × V))
      → lookup j (insert k v m) ≡ (if text_eq k j then some v else lookup j m)
  unfolding lookup insert
  lookup-insert k j v [] = refl
  lookup-insert k j v ((i, w) ∷ m) =
      ground (arith, text_eq_iff k j, text_eq_iff i k, text_eq_iff i j, lookup-insert k j v m)

  pub lookup-insert_self :
      (k : Text) (v : V) (m : List (Text × V)) → lookup k (insert k v m) ≡ some v
  lookup-insert_self k v m = simp (lookup-insert, text_eq_self)
