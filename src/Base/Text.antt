-- ===== src/Base/Text.antt =====
-- Go strings are sequences of bytes. The functions of the packages `strings` and `bytes` that the
-- program uses on them.
pub mod Affix
use Prim.Native.Nat.{ℕ, zero, suc}
use Prim.Native.Char.{code}
use Prim.Native.String.{String}
use mathlib.Core.Path.{◌≡◌, refl}
use mathlib.Core.Logic.{◌≢◌, ◌↔◌}
use mathlib.Core.Bool.{Bool, true, false, ◌&&◌, ◌||◌}
use mathlib.Core.List.{List, [], ◌∷◌, ◌++◌, reverse}
use native.Mathlib.Omega.{arith}
use bitbox_base.Base.Tests.{◌==◌, if◌then◌else◌}
use bitbox_base.Base.Lists.{length}

abbrev pub Text : Type 0
Text = List ℕ

abbrev codes : String → Text
codes String.[] = []
codes (String.◌∷◌ c s) = code c ∷ codes s

-- An ASCII literal of the source.
unfoldable pub text : String → Text
text s = codes s

unfoldable pub text_eq : Text → Text → Bool
text_eq [] [] = true
text_eq (a ∷ s) (b ∷ t) = a == b && text_eq s t
text_eq _ _ = false

pub text_eq_iff : (s t : Text) → (text_eq s t ≡ true) ↔ (s ≡ t)
unfolding text_eq
text_eq_iff [] [] = (λ _. refl, λ _. refl)
text_eq_iff [] (b ∷ t) = (λ h. cc, λ h. cc)
text_eq_iff (a ∷ s) [] = (λ h. cc, λ h. cc)
text_eq_iff (a ∷ s) (b ∷ t) = ground (arith, text_eq_iff s t)

pub text_eq_self : (s : Text) → text_eq s s ≡ true
text_eq_self s = (text_eq_iff s s).1 refl

-- `strings.Split` at a single byte: always at least one part.
prepend : ℕ → List Text → List Text
prepend c [] = (c ∷ []) ∷ []
prepend c (p ∷ ps) = (c ∷ p) ∷ ps

unfoldable pub split : ℕ → Text → List Text
unfolding prepend
split c [] = [] ∷ []
split c (b ∷ s) = let rest = split c s in if b == c then [] ∷ rest else prepend b rest

-- `strings.Join`.
unfoldable pub join : Text → List Text → Text
join sep [] = []
join sep (p ∷ []) = p
join sep (p ∷ q ∷ ps) = p ++ (sep ++ join sep (q ∷ ps))

pub split-ne-nil : (c : ℕ) (s : Text) → split c s ≢ []
unfolding split
split-ne-nil c [] = λ h. cc
split-ne-nil c (b ∷ s) = ground (arith, split-ne-nil c s)

join-cons_nil : (c : ℕ) (ps : List Text) → ps ≢ [] → join (c ∷ []) ([] ∷ ps) ≡ c ∷ join (c ∷ []) ps
unfolding join
join-cons_nil c [] h = absurd (h refl)
join-cons_nil c (p ∷ ps) h = refl

join-prepend : (c b : ℕ) (ps : List Text) → join (c ∷ []) (prepend b ps) ≡ b ∷ join (c ∷ []) ps
unfolding join prepend
join-prepend c b [] = refl
join-prepend c b (p ∷ []) = refl
join-prepend c b (p ∷ q ∷ ps) = refl

-- Joining undoes splitting.
pub join-split : (c : ℕ) (s : Text) → join (c ∷ []) (split c s) ≡ s
unfolding split
join-split c [] = unfold join in refl
join-split c (b ∷ s) = ground (
  arith,
  join-cons_nil c (split c s),
  join-prepend c b (split c s),
  split-ne-nil c s,
  join-split c s,
)

-- `strings.HasPrefix`.
unfoldable pub has_prefix : Text → Text → Bool
has_prefix s [] = true
has_prefix [] (c ∷ p) = false
has_prefix (b ∷ s) (c ∷ p) = b == c && has_prefix s p

-- `s[n:]`, for `n` at most the length.
unfoldable pub drop : ℕ → Text → Text
drop zero s = s
drop (suc n) [] = []
drop (suc n) (c ∷ s) = drop n s

-- `strings.TrimPrefix`.
unfoldable pub trim_prefix : Text → Text → Text
unfolding has_prefix drop
trim_prefix s p = if has_prefix s p then drop (length p) s else s

-- `strings.HasSuffix` and `strings.TrimSuffix`.
unfoldable pub has_suffix : Text → Text → Bool
unfolding has_prefix
has_suffix s p = has_prefix (reverse s) (reverse p)

unfoldable pub trim_suffix : Text → Text → Text
unfolding trim_prefix
trim_suffix s p = reverse (trim_prefix (reverse s) (reverse p))

-- `strings.Contains`.
unfoldable pub contains : Text → Text → Bool
unfolding has_prefix
contains [] p = has_prefix [] p
contains (c ∷ s) p = has_prefix (c ∷ s) p || contains s p
