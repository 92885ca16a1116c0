-- ===== src/Middleware/Hostname/Grammar.antt =====
-- The hostnames that `SetHostname` of middleware/src/middleware.go accepts, and what it does.
use bitbox_base.Base.{
  ℕ, zero, suc, ◌≤◌, ◌≡◌, refl, ap, ◌↔◌, true, ◌&&◌, [], ◌∷◌, ◌++◌, arith, length, All,
}
use bitbox_base.Base.Text.{Text}
use bitbox_base.Middleware.Hostname.{
  is_lower, is_lower_or_digit, is_inner, matches_rest, is_hostname,
}

-- At most `n` letters, digits or dashes, and then a letter or digit.
abbrev pub EndsWell : ℕ → Text → Type 0
EndsWell n s =
    (inner : Text) × (last : ℕ) × (s ≡ inner ++ (last ∷ []))
    × All (λ c. is_inner c ≡ true) inner
    × (length inner ≤ n)
    × (is_lower_or_digit last ≡ true)

-- A letter first, a letter or digit last, between them at most 22 letters, digits or dashes.
abbrev pub IsHostname : Text → Type 0
IsHostname s =
    (first : ℕ) × (rest : Text) × (s ≡ first ∷ rest) × (is_lower first ≡ true) × EndsWell 22 rest

EndsWell-cons : (n c : ℕ) (s : Text) → is_inner c ≡ true → EndsWell n s → EndsWell (suc n) (c ∷ s)
EndsWell-cons n c s h (inner, last, e, all, len, ok) =
    (c ∷ inner, last, ap (λ t. c ∷ t) e, (h, all), omega arith, ok)

matches_rest-EndsWell : (n : ℕ) (s : Text) → matches_rest n s ≡ true → EndsWell n s
unfolding matches_rest
matches_rest-EndsWell n [] h = cc
matches_rest-EndsWell n (c ∷ []) h = ([], c, refl, tt, omega arith, h)
matches_rest-EndsWell zero (c ∷ d ∷ s) h = cc
matches_rest-EndsWell (suc n) (c ∷ d ∷ s) h =
    EndsWell-cons n c (d ∷ s) (ground arith) (matches_rest-EndsWell n (d ∷ s) (ground arith))

EndsWell-matches_rest :
    (n : ℕ) (inner : Text) (last : ℕ)
    → All (λ c. is_inner c ≡ true) inner
    → length inner ≤ n
    → is_lower_or_digit last ≡ true
    → matches_rest n (inner ++ (last ∷ [])) ≡ true
unfolding matches_rest
EndsWell-matches_rest n [] last all len ok = ok
EndsWell-matches_rest zero (c ∷ inner) last all len ok = absurd (omega arith)
EndsWell-matches_rest (suc n) (c ∷ []) last all len ok =
    ground (arith, EndsWell-matches_rest n [] last tt)
EndsWell-matches_rest (suc n) (c ∷ d ∷ inner) last all len ok =
    ground (arith, EndsWell-matches_rest n (d ∷ inner) last all.1)

-- The matcher accepts exactly the texts of the regular expression `^[a-z][a-z0-9-]{0,22}[a-z0-9]$`.
pub is_hostname_iff : (s : Text) → (is_hostname s ≡ true) ↔ IsHostname s
unfolding is_hostname
is_hostname_iff [] = (λ h. cc, λ (f, r, e, _, _). cc)
is_hostname_iff (c ∷ s) = (accept, require)
  where
    accept : (is_lower c && matches_rest 22 s) ≡ true → IsHostname (c ∷ s)
    accept h = (c, s, refl, ground arith, matches_rest-EndsWell 22 s (ground arith))

    require : IsHostname (c ∷ s) → (is_lower c && matches_rest 22 s) ≡ true
    require (first, rest, e, low, (inner, last, e', all, len, ok)) =
        ground (arith, EndsWell-matches_rest 22 inner last all len ok)
