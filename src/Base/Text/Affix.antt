-- ===== src/Base/Text/Affix.antt =====
-- Prefixes, suffixes and parts of texts that are put together.
use mathlib.Core.Path.{◌≡◌, refl}
use mathlib.Core.Logic.{◌≢◌}
use mathlib.Core.Bool.{true}
use mathlib.Core.List.{[], ◌∷◌, ◌++◌, reverse, reverse-append, reverse-reverse}
use native.Mathlib.Omega.{arith}
use Prim.Native.Nat.{ℕ}
use bitbox_base.Base.Lists.{length, All}
use bitbox_base.Base.Text.{Text, split, has_prefix, has_suffix, drop, trim_prefix, trim_suffix}

pub has_prefix-append : (p s : Text) → has_prefix (p ++ s) p ≡ true
unfolding has_prefix
has_prefix-append [] s = refl
has_prefix-append (c ∷ p) s = ground (arith, has_prefix-append p s)

drop-append : (p s : Text) → drop (length p) (p ++ s) ≡ s
unfolding drop
drop-append [] s = refl
drop-append (c ∷ p) s = drop-append p s

-- Trimming takes off the prefix that was put on.
pub trim_prefix-append : (p s : Text) → trim_prefix (p ++ s) p ≡ s
unfolding trim_prefix
trim_prefix-append p s = rw (has_prefix-append p s) (drop-append p s)

pub has_suffix-append : (s p : Text) → has_suffix (s ++ p) p ≡ true
unfolding has_suffix
has_suffix-append s p = rw (reverse-append s p) (has_prefix-append (reverse p) (reverse s))

pub trim_suffix-append : (s p : Text) → trim_suffix (s ++ p) p ≡ s
unfolding trim_suffix
trim_suffix-append s p =
    rw (reverse-append s p, trim_prefix-append (reverse p) (reverse s)) (reverse-reverse s)

abbrev pub Lacks : ℕ → Text → Type 0
Lacks b s = All (λ c. c ≢ b) s

pub split-append : (b : ℕ) (s t : Text) → Lacks b s → split b (s ++ (b ∷ t)) ≡ s ∷ split b t
unfolding split
split-append b [] t h = ground arith
split-append b (c ∷ s) t h = ground (arith, split-append b s t)

pub split_whole : (b : ℕ) (s : Text) → Lacks b s → split b s ≡ s ∷ []
unfolding split
split_whole b [] h = refl
split_whole b (c ∷ s) h = ground (arith, split_whole b s)
