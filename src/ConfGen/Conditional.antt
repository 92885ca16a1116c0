-- ===== src/ConfGen/Conditional.antt =====
-- The lines of a template that a value drops (tools/bbbconfgen/bbbconfgen.go).
use mathlib.Core.List.{append_assoc, append-nil}
use bitbox_base.Base.{
  ℕ, Bool, true, false, not, some, [], ◌∷◌, ◌++◌, length, length-append, ◌+◌, All, All-append,
  Action, ◌≡◌, ◌≢◌, refl, ap, ◌∙◌, sym, arith,
}
use bitbox_base.Base.Text.{Text, text, text_eq, has_prefix, drop}
use bitbox_base.Base.Text.Affix.{Lacks}
use bitbox_base.Base.Spaces.{end_part, fields, fields_from}
use bitbox_base.ConfGen.Patterns.{
  closing, before_closing, group_at, placeholder_at, placeholder_text, find_placeholders,
  replace_all,
}
use bitbox_base.ConfGen.Parts.{IsKeyByte, IsKey, has_key_bytes-IsKey}
use bitbox_base.ConfGen.Replace.{replace_all-plain, replace_all_found}
use bitbox_base.ConfGen.Find.{
  find_placeholders-plain, find_placeholders-skip, fields_from-word, fields_blank,
}
use bitbox_base.ConfGen.Render.{IsLookedUp}
use bitbox_base.ConfGen.Template.{
  Line, Counts, is_false, is_true, substitute, apply_value, apply_placeholders, process_line,
}

before_closing-group : (g s : Text) → Lacks b'}' g → before_closing (g ++ (closing ++ s)) ≡ some g
unfolding before_closing has_prefix
before_closing-group [] s h = refl
before_closing-group (c ∷ g) s h = ground (arith, before_closing-group g s)

placeholder_at-group :
    (c : ℕ) (g s : Text)
    → Lacks b'}' g
    → placeholder_at (placeholder_text (c ∷ g) ++ s) ≡ some (c ∷ g)
unfolding placeholder_at has_prefix drop group_at
placeholder_at-group c g s h = rw (append_assoc g closing s) (rw (before_closing-group g s h) refl)

length-group : (c : ℕ) (g : Text) → length (c ∷ g) + 3 ≡ length (b'{' ∷ (c ∷ g) ++ closing)
length-group c g = omega (arith, length-append g closing)

find_placeholders-group :
    (c : ℕ) (g s : Text)
    → Lacks b'}' g
    → find_placeholders 0 (placeholder_text (c ∷ g) ++ s) ≡ (c ∷ g) ∷ find_placeholders 0 s
unfolding find_placeholders
find_placeholders-group c g s h =
    rw (find_placeholders, placeholder_at-group c g s h, length-group c g)
      (ap (λ r. (c ∷ g) ∷ r) (find_placeholders-skip (b'{' ∷ (c ∷ g) ++ closing) s))

find_placeholders_none : (s : Text) → Lacks b'{' s → find_placeholders 0 s ≡ []
find_placeholders_none s h =
    ap (find_placeholders 0) (sym (append-nil s))
    ∙ find_placeholders-plain s [] h
    ∙ unfold find_placeholders in refl

replace_all_none : (o v s : Text) → Lacks b'{' s → replace_all 0 (b'{' ∷ o) v s ≡ s
unfolding replace_all
replace_all_none o v s h =
    ap (replace_all 0 (b'{' ∷ o) v) (sym (append-nil s))
    ∙ replace_all-plain o v s [] h
    ∙ append-nil s

find_placeholders-around :
    (t s : Text) (c : ℕ) (g : Text)
    → Lacks b'{' t
    → Lacks b'{' s
    → Lacks b'}' g
    → find_placeholders 0 (t ++ (placeholder_text (c ∷ g) ++ s)) ≡ (c ∷ g) ∷ []
find_placeholders-around t s c g ht hs hg =
    find_placeholders-plain t _ ht
    ∙ find_placeholders-group c g s hg
    ∙ ap (λ r. (c ∷ g) ∷ r) (find_placeholders_none s hs)

substitute-around :
    (t s : Text) (g : Text)
    → Lacks b'{' t
    → Lacks b'{' s
    → substitute (placeholder_text g) [] (t ++ (placeholder_text g ++ s)) ≡ t ++ s
unfolding substitute
substitute-around t s g ht hs =
    let o = b'{' ∷ (g ++ closing) in
    replace_all-plain o [] t (placeholder_text g ++ s) ht
    ∙ ap (λ r. t ++ r) (replace_all_found b'{' o [] s ∙ replace_all_none o [] s hs)

-- The two options that drop a line where the value is true, and where it is false.
abbrev pub option_text : Bool → Text
option_text true = text "#rmLineTrue"
option_text false = text "#rmLineFalse"

abbrev pub drops : Bool → Text → Bool
drops true v = is_true v
drops false v = is_false v

-- ` key option `
abbrev pub condition : Text → Bool → Text
condition key b = b' ' ∷ (key ++ (b' ' ∷ (option_text b ++ (b' ' ∷ []))))

abbrev pub conditional_line : Text → Text → Bool → Text → Text
conditional_line t key b s = t ++ (placeholder_text (condition key b) ++ s)

option_text-IsKey : (b : Bool) → IsKey (option_text b)
unfolding text
option_text-IsKey true = has_key_bytes-IsKey b'#' _ refl
option_text-IsKey false = has_key_bytes-IsKey b'#' _ refl

Lacks-of_key : (k : Text) → All IsKeyByte k → Lacks b'}' k
Lacks-of_key [] h = tt
Lacks-of_key (c ∷ k) h = (λ e. omega (arith, h.0), Lacks-of_key k h.1)

Lacks-condition : (key : Text) (b : Bool) → IsKey key → Lacks b'}' (condition key b)
Lacks-condition key b h = (
  (λ e. omega arith),
  All-append (λ c. c ≢ b'}') key _ (Lacks-of_key key (h.0))
      (
        (λ e. omega arith),
        All-append (λ c. c ≢ b'}') (option_text b) (b' ' ∷ [])
            (Lacks-of_key (option_text b) (option_text-IsKey b).0) ((λ e. omega arith), tt),
      ),
)

fields-condition :
    (key : Text) (b : Bool) → IsKey key → fields (condition key b) ≡ key ∷ option_text b ∷ []
unfolding fields_from end_part
fields-condition key b h =
    fields_blank (key ++ (b' ' ∷ (option_text b ++ (b' ' ∷ []))))
    ∙ fields_from-word key (option_text b ++ (b' ' ∷ [])) h
    ∙ ap (λ r. key ∷ r) (fields_from-word (option_text b) [] (option_text-IsKey b))

apply_value-condition :
    (key t s v : Text) (b : Bool) (counts : Counts)
    → Lacks b'{' t
    → Lacks b'{' s
    → let line = conditional_line t key b s in
      let l =
        apply_value
          (placeholder_text (condition key b))
          (option_text b)
          (key ∷ option_text b ∷ [])
          v
          (record { output_line = line; print_line = true; counts = counts }) in
      (l.print_line ≡ not (drops b v)) × (l.print_line ≡ true → l.output_line ≡ t ++ s)
unfolding apply_value text text_eq
apply_value-condition key t s v true counts ht hs =
    ground (arith, substitute-around t s (condition key true) ht hs)
apply_value-condition key t s v false counts ht hs =
    ground (arith, substitute-around t s (condition key false) ht hs)

module _ {World : Type 0} (get : Text → Action World Text) where
  -- A line around one placeholder with the option `#rmLineTrue` or `#rmLineFalse` is dropped exactly
  -- if the value of the key is true or false, respectively; otherwise it is written without the
  -- placeholder. The rest of the line has no opening brace.
  pub process_line-conditional_line :
      (t key s : Text) (b : Bool) (counts : Counts) (w : World)
      → Lacks b'{' t
      → Lacks b'{' s
      → IsLookedUp key
      → let (v, w') = get key w in
        (l : Line) × (process_line get (conditional_line t key b s) counts w ≡ (some l, w'))
        × (l.print_line ≡ not (drops b v))
        × (l.print_line ≡ true → l.output_line ≡ t ++ s)
  unfolding process_line apply_placeholders
  process_line-conditional_line t key s b counts w ht hs hk =
      let (v, w') = get key w in
      let line = conditional_line t key b s in
      let start : Line = record { output_line = line; print_line = true; counts = counts } in
      let l =
        apply_value (placeholder_text (condition key b)) (option_text b) (key ∷ option_text b ∷ [])
          v start in
      let (printed, out) = apply_value-condition key t s v b counts ht hs in
      (
        l,
        rw
            (
              find_placeholders-around t s b' ' _ ht hs (Lacks-condition key b (hk.0)).1,
              fields-condition key b (hk.0),
              hk.1,
            )
            refl,
        printed,
        out,
      )
