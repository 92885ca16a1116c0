-- ===== src/Tests/Codec.antt =====
-- Lists of texts as one text, each with its length in front: what stands for JSON in the runs.
use bitbox_base.Base.{ℕ, zero, suc, List, [], ◌∷◌, ◌++◌, ◌≡◌, refl, length}
use bitbox_base.Base.Text.{Text}

unfoldable pub encode_texts : List Text → Text
encode_texts [] = []
encode_texts (k ∷ ks) = length k ∷ (k ++ encode_texts ks)

prepend_byte : ℕ → List Text → List Text
prepend_byte c [] = (c ∷ []) ∷ []
prepend_byte c (k ∷ ks) = (c ∷ k) ∷ ks

-- The rest of a text of which `n` bytes are missing, and the texts after it.
unfoldable pub decode_texts : ℕ → Text → List Text
unfolding prepend_byte
decode_texts zero [] = [] ∷ []
decode_texts zero (n ∷ s) = [] ∷ decode_texts n s
decode_texts (suc n) [] = [] ∷ []
decode_texts (suc n) (c ∷ s) = prepend_byte c (decode_texts n s)

pub decode-encode_texts :
    (k : Text) (ks : List Text) → decode_texts (length k) (k ++ encode_texts ks) ≡ k ∷ ks
unfolding decode_texts encode_texts prepend_byte
decode-encode_texts [] [] = refl
decode-encode_texts [] (k ∷ ks) = rw (decode-encode_texts k ks)
decode-encode_texts (c ∷ k) ks = rw (decode-encode_texts k ks)
