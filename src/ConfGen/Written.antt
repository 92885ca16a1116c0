-- ===== src/ConfGen/Written.antt =====
-- What tools/bbbconfgen/bbbconfgen.go writes for a whole template.
use bitbox_base.Base.{
  ℕ, zero, suc, ◌+◌, none, some, List, [], ◌∷◌, ◌++◌, map, All, Action, ◌≡◌, refl, ap, ◌∙◌, length,
}
use bitbox_base.Base.Text.{Text, has_prefix, drop}
use bitbox_base.Base.Text.Affix.{Lacks}
use bitbox_base.Base.Spaces.{end_part, fields, fields_from}
use bitbox_base.Base.Spaces.Trim.{blanks, space_size_blank}
use bitbox_base.ConfGen.Patterns.{
  opening, closing, before_closing, group_at, placeholder_at, find_placeholders,
}
use bitbox_base.ConfGen.Parts.{Part, IsPart, show_all}
use bitbox_base.ConfGen.Find.{keys, find_placeholders-plain}
use bitbox_base.ConfGen.Render.{IsLookedUp, render_all, process_line-render_all}
use bitbox_base.ConfGen.Template.{
  Counts, no_counts, process_line, with_line, process_lines, apply_placeholders,
}
use bitbox_base.ConfGen.Output.{Device, written, parse_template}

abbrev pub IsLine : List Part → Type 0
IsLine ps = All IsPart ps × All IsLookedUp (keys ps)

module _ {World : Type 0} (device : Device World) (value : Text → Text) (w : World)
    (reads : (k : Text) → device.get k w ≡ (value k, w))
    (plain : (k : Text) → Lacks b'{' (value k)) where
  process_lines-render_all :
      (lines : List (List Part)) (counts : Counts)
      → All IsLine lines
      → (counts' : Counts) × (process_lines device.get (map show_all lines) counts w
          ≡ (some (map (render_all value) lines, counts'), w))
  unfolding process_lines
  process_lines-render_all [] counts h = (counts, refl)
  process_lines-render_all (ps ∷ lines) counts h =
      let (l, run, rendered, printed) =
        process_line-render_all value device.get w reads plain ps counts (h.0.0) (h.0.1) in
      let (counts', rest) =
        process_lines-render_all lines (record (l.counts) { lines = l.counts.lines + 1 }) (h.1) in
      (
        counts',
        ap (λ d. with_line device.get (d.0) (d.1) (process_lines device.get (map show_all lines)))
              run
            ∙ rw (printed, rest, printed, rendered) refl,
      )

  -- A template whose lines are made of literals without an opening brace and of placeholders without
  -- options is written line by line, every value in the place of its placeholder, and the placeholder
  -- where the value is empty. This holds if the scanner ends without an error and Redis, which does
  -- not change, gives a value without an opening brace for every key.
  pub parse_template-render_all :
      (lines : List (List Part)) (name : Text)
      → All IsLine lines
      → (counts : Counts) × (parse_template device (map show_all lines, none) name w
          ≡ (written name (map (render_all value) lines) counts, w))
  unfolding parse_template
  parse_template-render_all lines name h =
      let (counts, run) = process_lines-render_all lines no_counts h in (counts, rw run refl)

before_closing-blanks :
    (n : ℕ) (s : Text) → before_closing (blanks n ++ (closing ++ s)) ≡ some (blanks n)
unfolding before_closing has_prefix
before_closing-blanks zero s = refl
before_closing-blanks (suc n) s = rw (before_closing-blanks n s) refl

fields-blanks : (n : ℕ) → fields (blanks n) ≡ []
unfolding fields fields_from end_part
fields-blanks zero = refl
fields-blanks (suc n) = rw (space_size_blank (blanks n)) (fields-blanks n)

find_placeholders-blank :
    (n : ℕ) (s : Text)
    → (groups : List Text) × (find_placeholders 0 (opening ++ (blanks (suc n) ++ (closing ++ s)))
        ≡ blanks (suc n) ∷ groups)
unfolding find_placeholders placeholder_at has_prefix drop group_at
find_placeholders-blank n s =
    let t = b'{' ∷ (blanks (suc n) ++ (closing ++ s)) in
    (
      find_placeholders (length (blanks (suc n)) + 3) t,
      rw (find_placeholders, before_closing-blanks n s) refl,
    )

-- The program panics at a line whose first placeholder is blank, whatever follows.
pub process_line_panics :
    {World : Type 0} (get : Text → Action World Text) (t s : Text) (n : ℕ) (counts : Counts)
    (w : World)
    → Lacks b'{' t
    → process_line get (t ++ (opening ++ (blanks (suc n) ++ (closing ++ s)))) counts w ≡ (none, w)
unfolding process_line apply_placeholders
process_line_panics get t s n counts w h =
    let (groups, found) = find_placeholders-blank n s in
    rw (find_placeholders-plain t (opening ++ (blanks (suc n) ++ (closing ++ s))) h, found)
      (rw (fields-blanks (suc n)) refl)
