-- ===== src/ConfGen/Find.antt =====
-- The placeholders of a line of a template and their keys.
use mathlib.Core.List.{append_assoc, reverse, reverse_aux, reverse-reverse}
use bitbox_base.Base.{
  ℕ, ◌+◌, some, List, [], ◌∷◌, ◌++◌, map, length, length-append, All, ◌≡◌, ◌≢◌, refl, ap, ◌∙◌, sym,
  arith,
}
use bitbox_base.Base.Text.{Text, has_prefix, drop}
use bitbox_base.Base.Text.Affix.{Lacks}
use bitbox_base.Base.Spaces.Trim.{space_size_blank}
use bitbox_base.Base.Spaces.{end_part, space_size, fields_from, fields}
use bitbox_base.ConfGen.Patterns.{
  closing, before_closing, group_at, placeholder_at, placeholder_text, find_placeholders,
}
use bitbox_base.ConfGen.Parts.{
  IsKeyByte, IsKey, Part, literal, placeholder, IsPart, after_opening, written_key, show_all,
}

-- The group that the regular expression captures.
abbrev pub pad : Text → Text
pad k = b' ' ∷ (k ++ (b' ' ∷ []))

abbrev pub keys : List Part → List Text
keys [] = []
keys (literal t ∷ ps) = keys ps
keys (placeholder k ∷ ps) = k ∷ keys ps

pub placeholder_text-pad : (k : Text) → placeholder_text (pad k) ≡ written_key k
placeholder_text-pad k = ap (λ r. b'{' ∷ b'{' ∷ b' ' ∷ r) (append_assoc k (b' ' ∷ []) closing)

before_closing-key :
    (k s : Text)
    → All IsKeyByte k
    → before_closing (k ++ (b' ' ∷ (closing ++ s))) ≡ some (k ++ (b' ' ∷ []))
unfolding before_closing has_prefix
before_closing-key [] s h = refl
before_closing-key (c ∷ k) s h = ground (arith, before_closing-key k s)

placeholder_at-key :
    (k s : Text) → All IsKeyByte k → placeholder_at (written_key k ++ s) ≡ some (pad k)
unfolding placeholder_at has_prefix drop group_at
placeholder_at-key k s h =
    rw (append_assoc k (b' ' ∷ closing) s) (rw (before_closing-key k s h) refl)

pub find_placeholders-skip :
    (t s : Text) → find_placeholders (length t) (t ++ s) ≡ find_placeholders 0 s
unfolding find_placeholders
find_placeholders-skip [] s = refl
find_placeholders-skip (c ∷ t) s = find_placeholders-skip t s

pub find_placeholders-plain :
    (t s : Text) → Lacks b'{' t → find_placeholders 0 (t ++ s) ≡ find_placeholders 0 s
unfolding find_placeholders placeholder_at has_prefix
find_placeholders-plain [] s h = refl
find_placeholders-plain (c ∷ t) s h = ground (arith, find_placeholders-plain t s)

length-pad : (k : Text) → length (pad k) + 3 ≡ length (b'{' ∷ after_opening k)
length-pad k = omega (arith, length-append k (b' ' ∷ []), length-append k (b' ' ∷ closing))

find_placeholders-key :
    (k s : Text)
    → All IsKeyByte k
    → find_placeholders 0 (written_key k ++ s) ≡ pad k ∷ find_placeholders 0 s
unfolding find_placeholders
find_placeholders-key k s h =
    rw (find_placeholders, placeholder_at-key k s h, length-pad k)
      (ap (λ r. pad k ∷ r) (find_placeholders-skip (b'{' ∷ after_opening k) s))

-- The placeholders of a line of parts are those of its parts.
pub find_placeholders-show_all :
    (ps : List Part) → All IsPart ps → find_placeholders 0 (show_all ps) ≡ map pad (keys ps)
find_placeholders-show_all [] h = unfold find_placeholders in refl
find_placeholders-show_all (literal t ∷ ps) h =
    find_placeholders-plain t (show_all ps) (h.0) ∙ find_placeholders-show_all ps (h.1)
find_placeholders-show_all (placeholder k ∷ ps) h =
    find_placeholders-key k (show_all ps) (h.0.0)
    ∙ ap (λ r. pad k ∷ r) (find_placeholders-show_all ps (h.1))

space_size_key : (c : ℕ) (s : Text) → IsKeyByte c → space_size (c ∷ s) ≡ 0
unfolding space_size
space_size_key c [] h = ground arith
space_size_key c (a ∷ []) h = ground arith
space_size_key c (a ∷ b ∷ s) h = ground arith

fields_from-key :
    (k part s : Text)
    → All IsKeyByte k
    → fields_from 0 part (k ++ (b' ' ∷ s)) ≡ fields_from 0 (reverse_aux k part) (b' ' ∷ s)
unfolding fields_from
fields_from-key [] part s h = refl
fields_from-key (c ∷ k) part s h =
    rw (space_size_key c (k ++ (b' ' ∷ s)) (h.0)) (fields_from-key k (c ∷ part) s (h.1))

end_part-cons :
    (part : Text) (parts : List Text) → part ≢ [] → end_part part parts ≡ reverse part ∷ parts
unfolding end_part
end_part-cons [] parts h = absurd (h refl)
end_part-cons (c ∷ part) parts h = refl

reverse-ne-nil : (k : Text) → k ≢ [] → reverse k ≢ []
reverse-ne-nil k h e = h (sym (reverse-reverse k) ∙ ap reverse e)

fields_from-blank :
    (part s : Text) → fields_from 0 part (b' ' ∷ s) ≡ end_part part (fields_from 0 [] s)
unfolding fields_from
fields_from-blank part s = rw (space_size_blank s) refl

-- A key in front of a blank is a field.
pub fields_from-word :
    (k s : Text) → IsKey k → fields_from 0 [] (k ++ (b' ' ∷ s)) ≡ k ∷ fields_from 0 [] s
fields_from-word k s h =
    fields_from-key k [] s (h.0)
    ∙ fields_from-blank (reverse k) s
    ∙ end_part-cons (reverse k) (fields_from 0 [] s) (reverse-ne-nil k (h.1))
    ∙ ap (λ r. r ∷ fields_from 0 [] s) (reverse-reverse k)

pub fields_blank : (s : Text) → fields (b' ' ∷ s) ≡ fields_from 0 [] s
unfolding fields end_part
fields_blank s = fields_from-blank [] s

-- The only field of a placeholder is its key.
pub fields-pad : (k : Text) → IsKey k → fields (pad k) ≡ k ∷ []
unfolding fields_from end_part
fields-pad k h = fields_blank (k ++ (b' ' ∷ [])) ∙ fields_from-word k [] h
