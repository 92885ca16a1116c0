-- ===== src/ConfGen/Render.antt =====
-- What `parseTemplate` of tools/bbbconfgen/bbbconfgen.go makes of a line of literals and placeholders
-- without options.
use bitbox_base.Base.{
  true, false, some, List, [], ◌∷◌, ◌++◌, map, All, Action, ◌≡◌, refl, ap, ◌∙◌, sym, ◌⊎◌, inl, inr,
  arith, if◌then◌else◌, Bool-cases, true-ne-false,
}
use bitbox_base.Base.Text.{Text, text, text_eq, text_eq_iff}
use bitbox_base.Base.Text.Affix.{Lacks}
use bitbox_base.ConfGen.Patterns.{placeholder_text, replace_all, to_lower}
use bitbox_base.ConfGen.Parts.{
  IsKey, Part, literal, placeholder, IsPart, written_key, show, show_all, fill,
}
use bitbox_base.ConfGen.Replace.{replace_all-show_all}
use bitbox_base.ConfGen.Find.{
  pad, keys, placeholder_text-pad, find_placeholders-show_all, fields-pad,
}
use bitbox_base.ConfGen.Template.{
  Line, Counts, is_zero_length, substitute, apply_fallback, apply_value, apply_placeholders,
  process_line,
}

-- A key that is looked up: the generator takes `#output:` for something else.
abbrev pub IsLookedUp : Text → Type 0
IsLookedUp k = IsKey k × (text_eq (to_lower k) (text "#output:") ≡ false)

module _ (value : Text → Text) where
  -- The value of a key takes the place of its placeholder, which stays if the value is empty.
  abbrev pub render : Part → Text
  render (literal t) = t
  render (placeholder k) = if is_zero_length (value k) then written_key k else value k

  abbrev pub render_all : List Part → Text
  render_all [] = []
  render_all (p ∷ ps) = render p ++ render_all ps

  abbrev filled : Text → Part → Part
  filled k p = if is_zero_length (value k) then p else fill k (value k) p

  abbrev Among : Text → List Text → Type 0
  Among k [] = ⊥
  Among k (j ∷ ks) = (j ≡ k) ⊎ Among k ks

  -- A part that is rendered as it is written, or that one of the keys fills.
  abbrev IsOpen : List Text → Part → Type 0
  IsOpen ks (literal t) = Unit
  IsOpen ks (placeholder k) = (is_zero_length (value k) ≡ true) ⊎ Among k ks

  filled_literal : (k t : Text) → filled k (literal t) ≡ literal t
  filled_literal k t = ground arith

  filled-IsPart : (k : Text) (p : Part) → Lacks b'{' (value k) → IsPart p → IsPart (filled k p)
  filled-IsPart k (literal t) hv h = rw (filled_literal k t) h
  filled-IsPart k (placeholder j) hv h = elim (Bool-cases (is_zero_length (value k))) [
    | inl e ↦ rw e h
    | inr e ↦ rw e (elim (Bool-cases (text_eq k j)) [ inl f ↦ rw f hv | inr f ↦ rw f h ])
  ]

  map-filled-IsPart :
      (k : Text) (ps : List Part)
      → Lacks b'{' (value k)
      → All IsPart ps
      → All IsPart (map (filled k) ps)
  map-filled-IsPart k [] hv h = tt
  map-filled-IsPart k (p ∷ ps) hv h = (filled-IsPart k p hv (h.0), map-filled-IsPart k ps hv (h.1))

  show_all-kept :
      (k : Text) (ps : List Part)
      → is_zero_length (value k) ≡ true
      → show_all (map (filled k) ps) ≡ show_all ps
  show_all-kept k [] e = refl
  show_all-kept k (p ∷ ps) e = rw e (ap (λ s. show p ++ s) (show_all-kept k ps e))

  show_all-filled :
      (k : Text) (ps : List Part)
      → is_zero_length (value k) ≡ false
      → show_all (map (filled k) ps) ≡ show_all (map (fill k (value k)) ps)
  show_all-filled k [] e = refl
  show_all-filled k (p ∷ ps) e =
      rw e (ap (λ s. show (fill k (value k) p) ++ s) (show_all-filled k ps e))

  substitute-pad :
      (k v s : Text) → substitute (placeholder_text (pad k)) v s ≡ replace_all 0 (written_key k) v s
  unfolding substitute
  substitute-pad k v s = ap (λ o. replace_all 0 o v s) (placeholder_text-pad k)

  -- One placeholder.
  apply_value-filled :
      (k : Text) (ps : List Part) (l : Line)
      → IsKey k
      → All IsPart ps
      → l.output_line ≡ show_all ps
      → let l' = apply_value (placeholder_text (pad k)) [] (k ∷ []) (value k) l in
        (l'.output_line ≡ show_all (map (filled k) ps)) × (l'.print_line ≡ l.print_line)
  unfolding apply_value apply_fallback to_lower text_eq text
  apply_value-filled k ps l hk h e = elim (Bool-cases (is_zero_length (value k))) [
    | inl f ↦ rw f (e ∙ sym (show_all-kept k ps f), refl)
    | inr f ↦ rw f (
      ap (substitute (placeholder_text (pad k)) (value k)) e
          ∙ substitute-pad k (value k) (show_all ps)
          ∙ replace_all-show_all k (value k) ps hk h
          ∙ sym (show_all-filled k ps f),
      refl,
    )
  ]

  fill-IsOpen :
      (k : Text) (ks : List Text) (j : Text)
      → IsOpen (k ∷ ks) (placeholder j)
      → IsOpen ks (fill k (value k) (placeholder j))
  fill-IsOpen k ks j h = elim (Bool-cases (text_eq k j)) [
    | inl f ↦ rw f tt
    | inr f ↦ rw f (elim h [
      | inl e ↦ inl e
      | inr m ↦ elim m [ inl q ↦ absurd (true-ne-false ((text_eq_iff k j).1 q) f) | inr n ↦ inr n ]
    ])
  ]

  filled-IsOpen :
      (k : Text) (ks : List Text) (p : Part) → IsOpen (k ∷ ks) p → IsOpen ks (filled k p)
  filled-IsOpen k ks (literal t) h = rw (filled_literal k t) tt
  filled-IsOpen k ks (placeholder j) h = elim (Bool-cases (is_zero_length (value k))) [
    | inl e ↦ rw e (elim h [
      | inl f ↦ inl f
      | inr m ↦ elim m [
        | inl q ↦ inl (ap (λ i. is_zero_length (value i)) (sym q) ∙ e)
        | inr n ↦ inr n
      ]
    ])
    | inr e ↦ rw e (fill-IsOpen k ks j h)
  ]

  filled-render : (k : Text) (p : Part) → render (filled k p) ≡ render p
  filled-render k (literal t) = rw (filled_literal k t) refl
  filled-render k (placeholder j) = elim (Bool-cases (is_zero_length (value k))) [
    | inl e ↦ rw e refl
    | inr e ↦ rw e (elim (Bool-cases (text_eq k j)) [
      | inl f ↦ rw f (rw (← (text_eq_iff k j).0 f, e) refl)
      | inr f ↦ rw f refl
    ])
  ]

  map-filled-render_all :
      (k : Text) (ps : List Part) → render_all (map (filled k) ps) ≡ render_all ps
  map-filled-render_all k [] = refl
  map-filled-render_all k (p ∷ ps) =
      ap (λ s. s ++ render_all (map (filled k) ps)) (filled-render k p)
      ∙ ap (λ s. render p ++ s) (map-filled-render_all k ps)

  map-filled-IsOpen :
      (k : Text) (ks : List Text) (ps : List Part)
      → All (IsOpen (k ∷ ks)) ps
      → All (IsOpen ks) (map (filled k) ps)
  map-filled-IsOpen k ks [] h = tt
  map-filled-IsOpen k ks (p ∷ ps) h = (filled-IsOpen k ks p (h.0), map-filled-IsOpen k ks ps (h.1))

  show-render : (p : Part) → IsOpen [] p → show p ≡ render p
  show-render (literal t) h = refl
  show-render (placeholder k) h = elim h [ inl e ↦ rw e refl | inr m ↦ absurd m ]

  show_all-render_all : (ps : List Part) → All (IsOpen []) ps → show_all ps ≡ render_all ps
  show_all-render_all [] h = refl
  show_all-render_all (p ∷ ps) h =
      ap (λ s. s ++ show_all ps) (show-render p (h.0))
      ∙ ap (λ s. render p ++ s) (show_all-render_all ps (h.1))

  keys-Among :
      (ps : List Part) (ks : List Text)
      → ((k : Text) → Among k (keys ps) → Among k ks)
      → All (IsOpen ks) ps
  keys-Among [] ks h = tt
  keys-Among (literal t ∷ ps) ks h = (tt, keys-Among ps ks h)
  keys-Among (placeholder k ∷ ps) ks h =
      (inr (h k (inl refl)), keys-Among ps ks (λ j m. h j (inr m)))

  module _ {World : Type 0} (get : Text → Action World Text) (w : World)
      (reads : (k : Text) → get k w ≡ (value k, w))
      (plain : (k : Text) → Lacks b'{' (value k)) where
    apply_placeholders-pad :
        (ks : List Text) (ps : List Part) (l : Line)
        → All IsLookedUp ks
        → All IsPart ps
        → All (IsOpen ks) ps
        → l.output_line ≡ show_all ps
        → (l' : Line) × (apply_placeholders get (map pad ks) l w ≡ (some l', w))
          × (l'.output_line ≡ render_all ps)
          × (l'.print_line ≡ l.print_line)
    unfolding apply_placeholders
    apply_placeholders-pad [] ps l hk hp ho e = (l, refl, e ∙ show_all-render_all ps ho, refl)
    apply_placeholders-pad (k ∷ ks) ps l hk hp ho e =
        let (out, printed) = apply_value-filled k ps l (hk.0.0) hp e in
        let (l', run, rendered, same) =
          apply_placeholders-pad ks (map (filled k) ps)
            (apply_value (placeholder_text (pad k)) [] (k ∷ []) (value k) l) (hk.1)
            (map-filled-IsPart k ps (plain k) hp) (map-filled-IsOpen k ks ps ho) out in
        (
          l',
          rw (fields-pad k (hk.0.0), reads k, hk.0.1) run,
          rendered ∙ map-filled-render_all k ps,
          same ∙ printed,
        )

    -- A line of literals without an opening brace and of placeholders is written, every value in the
    -- place of its placeholder. This holds if Redis gives a value without an opening brace for every
    -- key, and does not change.
    pub process_line-render_all :
        (ps : List Part) (counts : Counts)
        → All IsPart ps
        → All IsLookedUp (keys ps)
        → (l : Line) × (process_line get (show_all ps) counts w ≡ (some l, w))
          × (l.output_line ≡ render_all ps)
          × (l.print_line ≡ true)
    unfolding process_line
    process_line-render_all ps counts hp hk = rw (find_placeholders-show_all ps hp) (
        apply_placeholders-pad (keys ps) ps
          (record { output_line = show_all ps; print_line = true; counts = counts }) hk hp
          (keys-Among ps (keys ps) (λ k m. m)) refl)
