-- ===== src/ConfGen/Template.antt =====
-- `parseTemplate` of tools/bbbconfgen/bbbconfgen.go.
use bitbox_base.Base.{
  ℕ, zero, ◌+◌, Bool, true, false, ◌||◌, Option, none, some, List, [], ◌∷◌, Action, if◌then◌else◌,
}
use bitbox_base.Base.Text.{Text, text, text_eq, join}
use bitbox_base.Base.Spaces.{fields}
use bitbox_base.ConfGen.Patterns.{
  placeholder_text, find_placeholders, replace_all, to_lower, equal_fold,
}

-- The numbers that are logged at the end.
pub record Counts : Type 0 where
  pub lines : ℕ
  pub replaced : ℕ
  pub kept : ℕ
  pub removed : ℕ
  pub lines_removed : ℕ
  pub checked_true : ℕ
  pub checked_false : ℕ
  pub defaulted : ℕ

abbrev pub no_counts : Counts
no_counts = record {
  lines = 0;
  replaced = 0;
  kept = 0;
  removed = 0;
  lines_removed = 0;
  checked_true = 0;
  checked_false = 0;
  defaulted = 0;
}

-- The variables of one line.
pub record Line : Type 0 where
  pub output_line : Text
  pub print_line : Bool
  pub counts : Counts

unfoldable pub is_false : Text → Bool
unfolding equal_fold text_eq text
is_false v =
    text_eq v (text "0")
    || (equal_fold v (text "false")
        || (equal_fold v (text "no") || (equal_fold v (text "n") || text_eq v [])))

unfoldable pub is_true : Text → Bool
unfolding equal_fold text_eq text
is_true v =
    text_eq v (text "1")
    || (equal_fold v (text "true") || (equal_fold v (text "yes") || equal_fold v (text "y")))

unfoldable pub substitute : Text → Text → Text → Text
unfolding replace_all
substitute placeholder v line = replace_all zero placeholder v line

abbrev drop_checked : Line → Line
drop_checked l = record l {
  print_line = false;
  counts = record (l.counts) { checked_false = l.counts.checked_false + 1 };
}

abbrev keep_checked : Text → Line → Line
keep_checked placeholder l = record l {
  output_line = substitute placeholder [] l.output_line;
  counts = record (l.counts) { checked_true = l.counts.checked_true + 1 };
}

-- `strings.Join(placeholderFields[2:], " ")`
abbrev default_value : List Text → Text
default_value (key ∷ option ∷ words) = join (text " ") words
default_value _ = []

-- The `switch` for a key that has no value.
unfoldable pub apply_fallback : Text → Text → List Text → Line → Line
unfolding to_lower text_eq substitute join text
apply_fallback placeholder option words l =
    if text_eq (to_lower option) (text "#rm")
    then record l {
      output_line = substitute placeholder [] l.output_line;
      counts = record (l.counts) { removed = l.counts.removed + 1 };
    }
    else if text_eq (to_lower option) (text "#rmline")
    then record l {
      print_line = false;
      counts = record (l.counts) { lines_removed = l.counts.lines_removed + 1 };
    }
    else if text_eq (to_lower option) (text "#default:")
    then record l {
      output_line = substitute placeholder (default_value words) l.output_line;
      counts = record (l.counts) { defaulted = l.counts.defaulted + 1 };
    }
    else record l { counts = record (l.counts) { kept = l.counts.kept + 1 } }

abbrev pub is_zero_length : Text → Bool
is_zero_length [] = true
is_zero_length (c ∷ s) = false

-- What a placeholder does to its line, once the value of its key is known.
unfoldable pub apply_value : Text → Text → List Text → Text → Line → Line
unfolding text_eq text is_false is_true substitute apply_fallback
apply_value placeholder option words v l =
    if text_eq option (text "#check") || text_eq option (text "#rmLineFalse")
    then (if is_false v then drop_checked l else keep_checked placeholder l)
    else if text_eq option (text "#rmLineTrue")
    then (if is_true v then drop_checked l else keep_checked placeholder l)
    else if is_zero_length v
    then apply_fallback placeholder option words l
    else record l {
      output_line = substitute placeholder v l.output_line;
      counts = record (l.counts) { replaced = l.counts.replaced + 1 };
    }

abbrev option_of : List Text → Text
option_of (key ∷ option ∷ words) = option
option_of _ = []

abbrev add_line : Line → Option (List Text × Counts) → Option (List Text × Counts)
add_line l none = none
add_line l (some (ls, counts)) = some (if l.print_line then l.output_line ∷ ls else ls, counts)

module _ {World : Type 0} (get : Text → Action World Text) where
  -- The placeholders of a line, in order; `none` is the panic of `placeholderFields[0]` where the
  -- group is blank. The specifier of the output file ends the loop.
  abbrev with_fields :
      Text → List Text → Line → (Line → Action World (Option Line)) → Action World (Option Line)
  with_fields group [] l later w = (none, w)
  with_fields group (key ∷ words) l later w =
      let (v, w') = get key w in
      let l' = apply_value (placeholder_text group) (option_of (key ∷ words)) (key ∷ words) v l in
      let going_on = later l' w' in
      if text_eq (to_lower key) (text "#output:")
      then (some (record l { print_line = false }), w)
      else going_on

  unfoldable pub apply_placeholders : List Text → Line → Action World (Option Line)
  unfolding fields apply_value
  apply_placeholders [] l w = (some l, w)
  apply_placeholders (group ∷ groups) l w =
      with_fields group (fields group) l (λ l'. apply_placeholders groups l') w

  unfoldable pub process_line : Text → Counts → Action World (Option Line)
  unfolding apply_placeholders find_placeholders
  process_line line counts =
      apply_placeholders (find_placeholders zero line)
        (record { output_line = line; print_line = true; counts = counts })

  abbrev pub with_line :
      Option Line
      → World
      → (Counts → Action World (Option (List Text × Counts)))
      → Option (List Text × Counts) × World
  with_line none w later = (none, w)
  with_line (some l) w later =
      let printed = record (l.counts) { lines = l.counts.lines + 1 } in
      let (rest, v) = later (if l.print_line then printed else l.counts) w in (add_line l rest, v)

  -- The loop over the lines that the scanner reads: what is written, and the counts. An error of
  -- writing is not looked at.
  unfoldable pub process_lines : List Text → Counts → Action World (Option (List Text × Counts))
  unfolding process_line
  process_lines [] counts w = (some ([], counts), w)
  process_lines (line ∷ lines) counts w =
      let (done, w') = process_line line counts w in with_line done w' (process_lines lines)
