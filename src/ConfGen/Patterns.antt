-- ===== src/ConfGen/Patterns.antt =====
-- The regular expressions of tools/bbbconfgen/bbbconfgen.go, and what it calls of the package strings.
use bitbox_base.Base.{
  ℕ, zero, suc, ◌+◌, ◌-◌, Bool, ◌&&◌, Option, none, some, List, [], ◌∷◌, ◌++◌, leb, ◌==◌, length,
  if◌then◌else◌,
}
use mathlib.Core.List.{reverse}
use bitbox_base.Base.Text.{Text, text, text_eq, has_prefix, drop}

abbrev pub opening : Text
opening = b'{' ∷ b'{' ∷ []

abbrev pub closing : Text
closing = b'}' ∷ b'}' ∷ []

abbrev cons_some : ℕ → Option Text → Option Text
cons_some c none = none
cons_some c (some s) = some (c ∷ s)

-- What stands before the first `}}`.
unfoldable pub before_closing : Text → Option Text
unfolding has_prefix
before_closing [] = none
before_closing (c ∷ s) =
    if has_prefix (c ∷ s) closing then some [] else cons_some c (before_closing s)

-- `(.+?)}}` at the beginning of a text: at least one byte.
unfoldable pub group_at : Text → Option Text
unfolding before_closing
group_at [] = none
group_at (c ∷ s) = cons_some c (before_closing s)

-- `{{(.+?)}}` at the beginning of a text: the group.
unfoldable pub placeholder_at : Text → Option Text
unfolding has_prefix drop group_at
placeholder_at s = if has_prefix s opening then group_at (drop 2 s) else none

abbrev pub placeholder_text : Text → Text
placeholder_text group = opening ++ (group ++ closing)

-- `FindAllStringSubmatch(line, -1)` of `{{(.+?)}}`: the groups; `skip` bytes belong to the last match.
unfoldable pub find_placeholders : ℕ → Text → List Text
unfolding placeholder_at
find_placeholders skip [] = []
find_placeholders (suc skip) (c ∷ s) = find_placeholders skip s
find_placeholders zero (c ∷ s) = elim (placeholder_at (c ∷ s)) [
  | none ↦ find_placeholders zero s
  | some group ↦ group ∷ find_placeholders (length group + 3) s
]

-- `strings.Replace(s, old, new, -1)` for an `old` that is not empty.
unfoldable pub replace_all : ℕ → Text → Text → Text → Text
unfolding has_prefix
replace_all skip old new [] = []
replace_all (suc skip) old new (c ∷ s) = replace_all skip old new s
replace_all zero old new (c ∷ s) =
    let found = new ++ replace_all (length old - 1) old new s in
    let rest = c ∷ replace_all zero old new s in if has_prefix (c ∷ s) old then found else rest

abbrev lower : ℕ → ℕ
lower c = if leb b'A' c && leb c b'Z' then c + 32 else c

-- `strings.ToLower`, as far as a comparison with ASCII can tell: besides the ASCII letters, U+0130
-- becomes an i and U+212A a k.
unfoldable pub to_lower : Text → Text
to_lower [] = []
to_lower (a ∷ []) = lower a ∷ []
to_lower (a ∷ b ∷ []) = if a == 196 && b == 176 then b'i' ∷ [] else lower a ∷ lower b ∷ []
to_lower (a ∷ b ∷ c ∷ s) =
    let two = b'i' ∷ to_lower (c ∷ s) in
    let three = b'k' ∷ to_lower s in
    let one = lower a ∷ to_lower (b ∷ c ∷ s) in
    if a == 196 && b == 176 then two else if a == 226 && (b == 132 && c == 170) then three else one

-- The folding of `strings.EqualFold`, as far as a comparison with ASCII can tell: U+017F folds to s
-- and U+212A to k.
unfoldable pub fold_case : Text → Text
fold_case [] = []
fold_case (a ∷ []) = lower a ∷ []
fold_case (a ∷ b ∷ []) = if a == 197 && b == 191 then b's' ∷ [] else lower a ∷ lower b ∷ []
fold_case (a ∷ b ∷ c ∷ s) =
    let two = b's' ∷ fold_case (c ∷ s) in
    let three = b'k' ∷ fold_case s in
    let one = lower a ∷ fold_case (b ∷ c ∷ s) in
    if a == 197 && b == 191 then two else if a == 226 && (b == 132 && c == 170) then three else one

unfoldable pub equal_fold : Text → Text → Bool
unfolding fold_case text_eq
equal_fold s t = text_eq (fold_case s) (fold_case t)

unfoldable pub trim_left_spaces : Text → Text
trim_left_spaces [] = []
trim_left_spaces (c ∷ s) = let rest = trim_left_spaces s in if c == b' ' then rest else c ∷ s

-- `strings.Trim(s, " ")`
unfoldable pub trim_spaces : Text → Text
unfolding trim_left_spaces
trim_spaces s = reverse (trim_left_spaces (reverse (trim_left_spaces s)))

-- `{{[ ]{0,}#output: (.+?)}}` at the beginning of a text: the group.
unfoldable pub output_at : Text → Option Text
unfolding has_prefix drop trim_left_spaces group_at text
output_at s =
    let rest = trim_left_spaces (drop 2 s) in
    if has_prefix s opening && has_prefix rest (text "#output: ")
    then group_at (drop 9 rest)
    else none

-- Its first match in a line.
unfoldable pub find_output : Text → Option Text
unfolding output_at
find_output [] = none
find_output (c ∷ s) = elim (output_at (c ∷ s)) [ none ↦ find_output s | some group ↦ some group ]
