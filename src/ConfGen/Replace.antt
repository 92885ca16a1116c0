-- ===== src/ConfGen/Replace.antt =====
-- Replacing the placeholders of a key in a line of a template.
use mathlib.Core.List.{append_assoc}
use bitbox_base.Base.{
  ℕ, suc, ◌-◌, true, false, List, [], ◌∷◌, ◌++◌, map, length, All, ◌≡◌, refl, ap, ◌∙◌, inl, inr,
  arith, Bool-cases, true-ne-false,
}
use bitbox_base.Base.Text.{Text, text_eq, text_eq_iff, has_prefix}
use bitbox_base.Base.Text.Affix.{Lacks, has_prefix-append}
use bitbox_base.ConfGen.Patterns.{closing, replace_all}
use bitbox_base.ConfGen.Parts.{
  IsKeyByte, IsKey, Part, literal, placeholder, IsPart, written_key, show, show_all, fill,
  Lacks-after_opening,
}

module _ (o v : Text) where
  pub replace_all-plain :
      (t s : Text)
      → Lacks b'{' t
      → replace_all 0 (b'{' ∷ o) v (t ++ s) ≡ t ++ replace_all 0 (b'{' ∷ o) v s
  unfolding replace_all has_prefix
  replace_all-plain [] s h = refl
  replace_all-plain (c ∷ t) s h = ground (arith, replace_all-plain t s)

  replace_all-skip : (t s : Text) → replace_all (length t) o v (t ++ s) ≡ replace_all 0 o v s
  unfolding replace_all
  replace_all-skip [] s = refl
  replace_all-skip (c ∷ t) s = replace_all-skip t s

suc_pred : (n : ℕ) → suc n - 1 ≡ n
suc_pred n = omega arith

pub replace_all_found :
    (c : ℕ) (o v s : Text) → replace_all 0 (c ∷ o) v ((c ∷ o) ++ s) ≡ v ++ replace_all 0 (c ∷ o) v s
unfolding replace_all
replace_all_found c o v s =
    rw (has_prefix-append (c ∷ o) s, suc_pred (length o))
      (ap (λ r. v ++ r) (replace_all-skip (c ∷ o) v o s))

has_prefix_key :
    (j k s t : Text)
    → All IsKeyByte j
    → All IsKeyByte k
    → has_prefix (j ++ (b' ' ∷ s)) (k ++ (b' ' ∷ t)) ≡ true
    → k ≡ j
unfolding has_prefix
has_prefix_key [] [] s t hj hk e = refl
has_prefix_key [] (c ∷ k) s t hj hk e = ground arith
has_prefix_key (b ∷ j) [] s t hj hk e = ground arith
has_prefix_key (b ∷ j) (c ∷ k) s t hj hk e = ground (arith, has_prefix_key j k s t)

has_prefix_other_key :
    (j k s t : Text)
    → All IsKeyByte j
    → All IsKeyByte k
    → text_eq k j ≡ false
    → has_prefix (j ++ (b' ' ∷ b'}' ∷ b'}' ∷ s)) (k ++ (b' ' ∷ t)) ≡ false
has_prefix_other_key j k s t hj hk e =
    elim (Bool-cases (has_prefix (j ++ (b' ' ∷ b'}' ∷ b'}' ∷ s)) (k ++ (b' ' ∷ t)))) [
      | inl p ↦ absurd (true-ne-false ((text_eq_iff k j).1 (has_prefix_key j k _ t hj hk p)) e)
      | inr p ↦ p
    ]

-- A key that is not looked for stays.
replace_all_other :
    (j k v s : Text)
    → IsKey j
    → IsKey k
    → text_eq k j ≡ false
    → replace_all 0 (written_key k) v (written_key j ++ s)
      ≡ written_key j ++ replace_all 0 (written_key k) v s
unfolding replace_all has_prefix
replace_all_other j k v s hj hk e = rw (append_assoc j (b' ' ∷ closing) s) (
    rw (has_prefix_other_key j k s closing (hj.0) (hk.0) e) (
      ap (λ r. b'{' ∷ b'{' ∷ b' ' ∷ r)
        (rw (← append_assoc j (b' ' ∷ closing) s)
          (replace_all-plain _ v _ s (Lacks-after_opening j (hj.0))))))

replace_all-show :
    (k v : Text) (p : Part) (s : Text)
    → IsKey k
    → IsPart p
    → replace_all 0 (written_key k) v (show p ++ s)
      ≡ show (fill k v p) ++ replace_all 0 (written_key k) v s
replace_all-show k v (literal t) s hk h = replace_all-plain _ v t s h
replace_all-show k v (placeholder j) s hk h = elim (Bool-cases (text_eq k j)) [
  | inl e ↦ rw e (rw (← (text_eq_iff k j).0 e) (replace_all_found b'{' _ v s))
  | inr e ↦ rw e (replace_all_other j k v s h hk e)
]

-- Replacing the placeholder of a key replaces the parts with that key and no other.
pub replace_all-show_all :
    (k v : Text) (ps : List Part)
    → IsKey k
    → All IsPart ps
    → replace_all 0 (written_key k) v (show_all ps) ≡ show_all (map (fill k v) ps)
replace_all-show_all k v [] hk h = unfold replace_all in refl
replace_all-show_all k v (p ∷ ps) hk h =
    replace_all-show k v p (show_all ps) hk (h.0)
    ∙ ap (λ s. show (fill k v p) ++ s) (replace_all-show_all k v ps hk (h.1))
