-- ===== src/Rpcmessages/Distinct.antt =====
-- The error codes of middleware/src/rpcmessages/errorcodes.go are told apart by their text.
use bitbox_base.Base.{◌≡◌, refl, sym, ◌∙◌, ap, some}
use bitbox_base.Base.Text.{text_eq}
use mathlib.Core.Option.{some-injective}
use bitbox_base.Rpcmessages.Codes.{ErrorCode, no_code, code_text, all_codes, find_code}

find_code-code_text : (c : ErrorCode) → find_code (code_text c) all_codes ≡ some c
unfolding find_code code_text text_eq
find_code-code_text no_code = refl
find_code-code_text _ = refl

-- Two error codes with the same text are the same code, so a client can branch on the text.
pub code_text-injective : (c d : ErrorCode) → code_text c ≡ code_text d → c ≡ d
code_text-injective c d h =
    some-injective c d
      (sym (find_code-code_text c) ∙ (ap (λ t. find_code t all_codes) h ∙ find_code-code_text d))
