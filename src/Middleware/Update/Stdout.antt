-- ===== src/Middleware/Update/Stdout.antt =====
-- The progress lines of `mender -install` are understood: `parseBaseUpdateStdout` of
-- middleware/src/util.go.
use mathlib.Core.List.{append_assoc}
use bitbox_base.Base.{
  ℕ, ◌^◌, ◌<◌, ◌≡◌, refl, sym, ap, ◌∙◌, ◌≢◌, true, some, [], ◌∷◌, ◌++◌, arith, All, All-append,
}
use bitbox_base.Base.Text.{Text, split, has_prefix}
use bitbox_base.Base.Text.Affix.{
  has_prefix-append, has_suffix-append, trim_prefix-append, trim_suffix-append, split-append,
  split_whole, Lacks,
}
use bitbox_base.Base.Spaces.{trim_space}
use bitbox_base.Base.Spaces.Trim.{blanks, trim_space-blanks}
use bitbox_base.Base.Decimal.{
  IsDigit, decimal, decimal-IsDigit, decimal-ne-nil, atoi-decimal, decimal-snoc,
}
use bitbox_base.Base.Int.{pos}
use bitbox_base.Middleware.Update.{
  progress_prefix, progress_suffix, drop_percent, parse_parts, parse_base_update_stdout,
}

-- `................................   0% 1024 KiB`: the dots, some blanks, the percentage and
-- the amount.
abbrev amounts : ℕ → ℕ → Text
amounts p k = decimal p ++ (b'%' ∷ b' ' ∷ decimal k)

abbrev pub progress_line : ℕ → ℕ → ℕ → Text
progress_line n p k =
    (progress_prefix ++ (blanks n ++ (amounts p k ++ (b' ' ∷ [])))) ++ progress_suffix

digits-Lacks : (b : ℕ) (s : Text) → b < b'0' → All IsDigit s → Lacks b s
digits-Lacks b [] h d = tt
digits-Lacks b (c ∷ s) h d = (omega arith, digits-Lacks b s h d.1)

drop_percent_lem : (s : Text) → All IsDigit s → drop_percent (s ++ (b'%' ∷ [])) ≡ s
unfolding drop_percent
drop_percent_lem [] h = ground arith
drop_percent_lem (c ∷ s) h = ground (arith, drop_percent_lem s h.1)

split-amounts : (p k : ℕ) → split b' ' (amounts p k) ≡ (decimal p ++ (b'%' ∷ [])) ∷ decimal k ∷ []
split-amounts p k =
    ap (split b' ') (sym (append_assoc (decimal p) (b'%' ∷ []) (b' ' ∷ decimal k)))
    ∙ (split-append b' ' (decimal p ++ (b'%' ∷ [])) (decimal k) (
          All-append (λ c. c ≢ b' ') (decimal p) (b'%' ∷ [])
            (digits-Lacks b' ' (decimal p) (omega arith) (decimal-IsDigit p)) (omega arith))
        ∙ ap (λ t. (decimal p ++ (b'%' ∷ [])) ∷ t)
            (split_whole b' ' (decimal k)
              (digits-Lacks b' ' (decimal k) (omega arith) (decimal-IsDigit k))))

abbrev joined : Text → Text → Text
joined u v = u ++ (b'%' ∷ b' ' ∷ v)

trim_space-joined :
    (n : ℕ) (u v t : Text) (d : ℕ)
    → u ≢ []
    → All IsDigit u
    → IsDigit d
    → v ≡ t ++ (d ∷ [])
    → trim_space (blanks n ++ (joined u v ++ (b' ' ∷ []))) ≡ joined u v
trim_space-joined n [] v t d h hu hd e = absurd (h refl)
trim_space-joined n (c ∷ u) v t d h hu hd e =
    trim_space-blanks n c d (joined u v) (c ∷ joined u t) hu.0 hd
      (ap (λ x. c ∷ joined u x) e ∙ sym (append_assoc (c ∷ u) (b'%' ∷ b' ' ∷ t) (d ∷ [])))

trim_space-amounts :
    (n p k : ℕ) → trim_space (blanks n ++ (amounts p k ++ (b' ' ∷ []))) ≡ amounts p k
trim_space-amounts n p k =
    let (t, d, hd, e) = decimal-snoc k in
    trim_space-joined n (decimal p) (decimal k) t d (decimal-ne-nil p) (decimal-IsDigit p) hd e

parse-amounts :
    (p k : ℕ)
    → p < 2 ^ 63
    → k < 2 ^ 63
    → parse_parts (split b' ' (amounts p k)) ≡ some (pos p, pos k)
unfolding parse_parts
parse-amounts p k hp hk = rw (
  split-amounts p k,
  drop_percent_lem (decimal p) (decimal-IsDigit p),
  atoi-decimal p hp,
  atoi-decimal k hk,
)

prefix_found :
    (x : Text) → has_prefix ((progress_prefix ++ x) ++ progress_suffix) progress_prefix ≡ true
prefix_found x =
    rw (append_assoc progress_prefix x progress_suffix)
      (has_prefix-append progress_prefix (x ++ progress_suffix))

-- A progress line that shows a percentage and an amount in the decimal notation, after any number of
-- blanks, is parsed to that percentage and that amount.
pub parse_base_update_stdout-progress_line :
    (n p k : ℕ)
    → p < 2 ^ 63
    → k < 2 ^ 63
    → parse_base_update_stdout (progress_line n p k) ≡ some (pos p, pos k)
unfolding parse_base_update_stdout
parse_base_update_stdout-progress_line n p k hp hk =
    let x = blanks n ++ (amounts p k ++ (b' ' ∷ [])) in
    rw
      (
        prefix_found x,
        has_suffix-append (progress_prefix ++ x) progress_suffix,
        trim_suffix-append (progress_prefix ++ x) progress_suffix,
        trim_prefix-append progress_prefix x,
        trim_space-amounts n p k,
      )
      (parse-amounts p k hp hk)
