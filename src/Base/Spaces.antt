-- ===== src/Base/Spaces.antt =====
-- White space as `unicode.IsSpace` has it, in UTF-8: `strings.TrimSpace` and `strings.Fields`.
pub mod Trim
use Prim.Native.Nat.{ℕ, zero, suc, ◌-◌}
use mathlib.Core.Bool.{Bool, ◌&&◌, ◌||◌}
use mathlib.Core.List.{List, [], ◌∷◌, reverse}
use bitbox_base.Base.Tests.{leb, ◌==◌, if◌then◌else◌}
use bitbox_base.Base.Text.{Text}

abbrev is_ascii_space : ℕ → Bool
is_ascii_space c = c == 32 || (leb 9 c && leb c 13)

-- U+0085 and U+00A0.
abbrev is_space2 : ℕ → ℕ → Bool
is_space2 a b = a == 194 && (b == 133 || b == 160)

-- U+1680, U+2000 to U+200A, U+2028, U+2029, U+202F, U+205F, U+3000.
abbrev is_space3 : ℕ → ℕ → ℕ → Bool
is_space3 a b c =
    (a == 225 && (b == 154 && c == 128))
    || (a == 226
        && ((b == 128 && ((leb 128 c && leb c 138) || (c == 168 || (c == 169 || c == 175))))
            || (b == 129 && c == 159)))
    || (a == 227 && (b == 128 && c == 128))

-- The bytes of the white space that a text begins with: 0 if it begins with none.
unfoldable pub space_size : Text → ℕ
space_size [] = 0
space_size (a ∷ []) = if is_ascii_space a then 1 else 0
space_size (a ∷ b ∷ []) = if is_ascii_space a then 1 else if is_space2 a b then 2 else 0
space_size (a ∷ b ∷ c ∷ s) =
    if is_ascii_space a then 1 else if is_space2 a b then 2 else if is_space3 a b c then 3 else 0

-- The same at the end of a text, which is read backwards.
unfoldable pub space_size_back : Text → ℕ
space_size_back [] = 0
space_size_back (a ∷ []) = if is_ascii_space a then 1 else 0
space_size_back (a ∷ b ∷ []) = if is_ascii_space a then 1 else if is_space2 b a then 2 else 0
space_size_back (a ∷ b ∷ c ∷ s) =
    if is_ascii_space a then 1 else if is_space2 b a then 2 else if is_space3 c b a then 3 else 0

-- Drops white space as long as `size` finds some; `skip` bytes belong to the last one.
unfoldable pub skip_space : (Text → ℕ) → ℕ → Text → Text
skip_space size skip [] = []
skip_space size (suc skip) (c ∷ s) = skip_space size skip s
skip_space size zero (c ∷ s) =
    let n = size (c ∷ s) in let rest = skip_space size (n - 1) s in if n == 0 then c ∷ s else rest

unfoldable pub trim_space : Text → Text
unfolding skip_space space_size space_size_back
trim_space s = reverse (skip_space space_size_back 0 (reverse (skip_space space_size 0 s)))

-- `strings.Fields`: the parts between white space; `skip` bytes belong to the last white space, and
-- `part` is the part that has begun, backwards.
unfoldable pub end_part : Text → List Text → List Text
end_part [] parts = parts
end_part (c ∷ part) parts = reverse (c ∷ part) ∷ parts

unfoldable pub fields_from : ℕ → Text → Text → List Text
unfolding end_part
fields_from skip part [] = end_part part []
fields_from (suc skip) part (c ∷ s) = fields_from skip part s
fields_from zero part (c ∷ s) =
    let n = space_size (c ∷ s) in
    let inside = fields_from zero (c ∷ part) s in
    let after = end_part part (fields_from (n - 1) [] s) in if n == 0 then inside else after

unfoldable pub fields : Text → List Text
unfolding fields_from space_size
fields s = fields_from 0 [] s
