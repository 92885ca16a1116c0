-- ===== src/ConfGen/Parts.antt =====
-- Lines of a template as parts, for the proofs about tools/bbbconfgen/bbbconfgen.go: literals without
-- an opening brace and placeholders `{{ key }}`.
use bitbox_base.Base.{
  Bool, true, ◌&&◌, leb, ◌≡◌, ℕ, ◌≤◌, List, [], ◌∷◌, ◌++◌, All, ◌≢◌, arith, if◌then◌else◌,
}
use bitbox_base.Base.Text.{Text, text_eq}
use bitbox_base.Base.Text.Affix.{Lacks}
use bitbox_base.ConfGen.Patterns.{closing}

-- The bytes of a key: ASCII, printed, before the braces.
abbrev pub IsKeyByte : ℕ → Type 0
IsKeyByte c = (33 ≤ c) × (c ≤ 122)

abbrev pub IsKey : Text → Type 0
IsKey k = All IsKeyByte k × (k ≢ [])

abbrev pub has_key_bytes : Text → Bool
has_key_bytes [] = true
has_key_bytes (c ∷ k) = leb 33 c && (leb c 122 && has_key_bytes k)

has_key_bytes-IsKeyByte : (k : Text) → has_key_bytes k ≡ true → All IsKeyByte k
has_key_bytes-IsKeyByte [] e = tt
has_key_bytes-IsKeyByte (c ∷ k) e = ground (arith, has_key_bytes-IsKeyByte k)

pub has_key_bytes-IsKey : (c : ℕ) (k : Text) → has_key_bytes (c ∷ k) ≡ true → IsKey (c ∷ k)
has_key_bytes-IsKey c k e = (has_key_bytes-IsKeyByte (c ∷ k) e, λ f. cc)

pub data Part : Type 0 where
  literal : Text → Part
  placeholder : Text → Part

abbrev pub IsPart : Part → Type 0
IsPart (literal t) = Lacks b'{' t
IsPart (placeholder k) = IsKey k

abbrev pub after_opening : Text → Text
after_opening k = b' ' ∷ (k ++ (b' ' ∷ closing))

abbrev pub written_key : Text → Text
written_key k = b'{' ∷ b'{' ∷ after_opening k

abbrev pub show : Part → Text
show (literal t) = t
show (placeholder k) = written_key k

abbrev pub show_all : List Part → Text
show_all [] = []
show_all (p ∷ ps) = show p ++ show_all ps

abbrev pub fill : Text → Text → Part → Part
fill k v (literal t) = literal t
fill k v (placeholder j) = if text_eq k j then literal v else placeholder j

pub Lacks-after_opening : (k : Text) → All IsKeyByte k → Lacks b'{' (k ++ (b' ' ∷ closing))
Lacks-after_opening [] h = (λ e. omega arith, (λ e. omega arith, (λ e. omega arith, tt)))
Lacks-after_opening (c ∷ k) h = (λ e. omega (arith, h.0), Lacks-after_opening k h.1)
