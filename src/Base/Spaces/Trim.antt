-- ===== src/Base/Spaces/Trim.antt =====
-- Trimming spaces from around a text that begins and ends with a digit.
use Prim.Native.Nat.{ℕ, zero, suc}
use mathlib.Core.Path.{◌≡◌, refl, sym, ap, ◌∙◌, subst}
use mathlib.Core.List.{[], ◌∷◌, ◌++◌, reverse, reverse-append, reverse-reverse}
use native.Mathlib.Omega.{arith}
use bitbox_base.Base.Text.{Text}
use bitbox_base.Base.Decimal.{IsDigit}
use bitbox_base.Base.Spaces.{space_size, space_size_back, skip_space, trim_space}

-- `n` spaces.
abbrev pub blanks : ℕ → Text
blanks zero = []
blanks (suc n) = b' ' ∷ blanks n

pub space_size_blank : (s : Text) → space_size (b' ' ∷ s) ≡ 1
unfolding space_size
space_size_blank [] = refl
space_size_blank (a ∷ []) = refl
space_size_blank (a ∷ b ∷ s) = refl

space_size_digit : (c : ℕ) (s : Text) → IsDigit c → space_size (c ∷ s) ≡ 0
unfolding space_size
space_size_digit c [] h = ground arith
space_size_digit c (a ∷ []) h = ground arith
space_size_digit c (a ∷ b ∷ s) h = ground arith

space_size_back_blank : (s : Text) → space_size_back (b' ' ∷ s) ≡ 1
unfolding space_size_back
space_size_back_blank [] = refl
space_size_back_blank (a ∷ []) = refl
space_size_back_blank (a ∷ b ∷ s) = refl

space_size_back_digit : (c : ℕ) (s : Text) → IsDigit c → space_size_back (c ∷ s) ≡ 0
unfolding space_size_back
space_size_back_digit c [] h = ground arith
space_size_back_digit c (a ∷ []) h = ground arith
space_size_back_digit c (a ∷ b ∷ s) h = ground arith

skip_space_digit : (c : ℕ) (s : Text) → IsDigit c → skip_space space_size 0 (c ∷ s) ≡ c ∷ s
unfolding skip_space
skip_space_digit c s h = rw (space_size_digit c s h)

skip_space-blanks :
    (n c : ℕ) (s : Text) → IsDigit c → skip_space space_size 0 (blanks n ++ (c ∷ s)) ≡ c ∷ s
unfolding skip_space
skip_space-blanks zero c s h = skip_space_digit c s h
skip_space-blanks (suc n) c s h =
    rw (space_size_blank (blanks n ++ (c ∷ s))) (skip_space-blanks n c s h)

skip_space_back :
    (c : ℕ) (s : Text) → IsDigit c → skip_space space_size_back 0 (b' ' ∷ c ∷ s) ≡ c ∷ s
unfolding skip_space
skip_space_back c s h = rw (space_size_back_blank (c ∷ s), space_size_back_digit c s h)

reverse_snoc : (s : Text) (c : ℕ) → reverse (s ++ (c ∷ [])) ≡ c ∷ reverse s
reverse_snoc s c = reverse-append s (c ∷ [])

trim_back :
    (t : Text) (d : ℕ)
    → IsDigit d
    → let u = t ++ (d ∷ []) in
      reverse (skip_space space_size_back 0 (reverse (u ++ (b' ' ∷ [])))) ≡ u
trim_back t d h =
    rw (reverse_snoc (t ++ (d ∷ [])) b' ', reverse_snoc t d, skip_space_back d (reverse t) h)
      (rw (← reverse_snoc t d) (reverse-reverse (t ++ (d ∷ []))))

-- The blanks before and the blank after a text between two digits are trimmed.
pub trim_space-blanks :
    (n c d : ℕ) (s t : Text)
    → IsDigit c
    → IsDigit d
    → c ∷ s ≡ t ++ (d ∷ [])
    → trim_space (blanks n ++ (c ∷ (s ++ (b' ' ∷ [])))) ≡ c ∷ s
unfolding trim_space
trim_space-blanks n c d s t hc hd e =
    ap (λ u. reverse (skip_space space_size_back 0 (reverse u))) (skip_space-blanks n c _ hc)
    ∙ subst (λ u. reverse (skip_space space_size_back 0 (reverse (u ++ (b' ' ∷ [])))) ≡ u) (sym e)
        (trim_back t d hd)
