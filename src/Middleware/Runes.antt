-- ===== src/Middleware/Runes.antt =====
-- The length of a password in runes, as `SetLoginPassword` of middleware/src/middleware.go counts it.
use bitbox_base.Base.{ℕ, zero, suc, ◌-◌, Bool, ◌&&◌, [], ◌∷◌, leb, ◌==◌, if◌then◌else◌}
use bitbox_base.Base.Text.{Text}

-- `len([]rune(s))`: Go decodes UTF-8, and each byte of an invalid sequence is a rune of its own.
-- `rune_size` is the number of bytes of the first rune.
abbrev is_continuation : ℕ → Bool
is_continuation c = leb 128 c && leb c 191

abbrev within : ℕ → ℕ → ℕ → Bool
within lo hi c = leb lo c && leb c hi

-- The range of the second byte, which excludes overlong forms, surrogates and what is too large.
abbrev second3 : ℕ → ℕ → Bool
second3 a b =
    if a == 224 then within 160 191 b else if a == 237 then within 128 159 b else is_continuation b

abbrev second4 : ℕ → ℕ → Bool
second4 a b =
    if a == 240 then within 144 191 b else if a == 244 then within 128 143 b else is_continuation b

unfoldable pub rune_size : Text → ℕ
rune_size [] = 0
rune_size (a ∷ []) = 1
rune_size (a ∷ b ∷ []) = if within 194 223 a && is_continuation b then 2 else 1
rune_size (a ∷ b ∷ c ∷ []) =
    if within 194 223 a && is_continuation b
    then 2
    else if within 224 239 a && (second3 a b && is_continuation c)
    then 3
    else 1
rune_size (a ∷ b ∷ c ∷ d ∷ s) =
    if within 194 223 a && is_continuation b
    then 2
    else if within 224 239 a && (second3 a b && is_continuation c)
    then 3
    else if within 240 244 a && (second4 a b && (is_continuation c && is_continuation d))
    then 4
    else 1

-- `skip` bytes still belong to the last rune.
unfoldable pub rune_count_from : ℕ → Text → ℕ
unfolding rune_size
rune_count_from skip [] = 0
rune_count_from (suc skip) (c ∷ s) = rune_count_from skip s
rune_count_from zero (c ∷ s) = suc (rune_count_from (rune_size (c ∷ s) - 1) s)

unfoldable pub rune_count : Text → ℕ
unfolding rune_count_from
rune_count s = rune_count_from 0 s
