-- ===== src/Middleware/Scripts/Results.antt =====
-- What the middleware makes of a script's result (middleware/src/util.go, `runCommand` and
-- `handleBBBScriptErrorCode`).
use bitbox_base.Base.{
  ◌≡◌, ◌≢◌, refl, ◌⊎◌, true, false, some, List, [], ◌∷◌, arith, get_last?, get_last?_of_cons,
}
use bitbox_base.Base.Text.{
  Text, text, text_eq, text_eq_iff, text_eq_self, split-ne-nil, trim_suffix,
}
use bitbox_base.Rpcmessages.Codes.{
  ErrorCode, code_text, error_script_not_superuser, error_cmd_script_invalid_arg,
  error_config_script_invalid_arg,
}
use bitbox_base.Rpcmessages.Distinct.{code_text-injective}
use bitbox_base.System.{GoError}
use bitbox_base.Middleware.Scripts.{
  newline, output_lines, default_code, first_possible, line_code, handle_bbb_script_error_code,
}

abbrev pub IsIn : ErrorCode → List ErrorCode → Type 0
IsIn c [] = ⊥
IsIn c (d ∷ ds) = (c ≡ d) ⊎ IsIn c ds

abbrev pub default_codes : List ErrorCode
default_codes =
    error_script_not_superuser ∷ error_cmd_script_invalid_arg ∷ error_config_script_invalid_arg ∷ []

same_code : (c d : ErrorCode) → text_eq (code_text c) (code_text d) ≡ true → c ≡ d
same_code c d h = code_text-injective c d ((text_eq_iff (code_text c) (code_text d)).0 h)

first_possible_of_IsIn :
    (c : ErrorCode) (cs : List ErrorCode) → IsIn c cs → first_possible (code_text c) cs ≡ c
unfolding first_possible
first_possible_of_IsIn c [] h = absurd h
first_possible_of_IsIn c (d ∷ ds) h =
    ground (arith, same_code c d, text_eq_self (code_text c), first_possible_of_IsIn c ds)

-- A possible code is found although the defaults are tried first.
line_code_of_IsIn :
    (c : ErrorCode) (cs : List ErrorCode)
    → IsIn c default_codes ⊎ IsIn c cs
    → line_code (code_text c) cs ≡ c
unfolding line_code default_code
line_code_of_IsIn c cs h = ground (
  arith,
  same_code c error_script_not_superuser,
  same_code c error_cmd_script_invalid_arg,
  same_code c error_config_script_invalid_arg,
  text_eq_self (code_text c),
  first_possible_of_IsIn c cs,
)

-- A script that exits with status 1 and ends its output with the text of a code which every script
-- can return, or which the caller expects of this script, is answered by that code.
pub handle_bbb_script_error_code_known :
    (lines : List Text) (err : GoError) (possible : List ErrorCode) (c : ErrorCode)
    → err.is_not_exist ≡ false
    → err.message ≡ text "exit status 1"
    → get_last? lines ≡ some (code_text c)
    → IsIn c default_codes ⊎ IsIn c possible
    → handle_bbb_script_error_code lines err possible ≡ c
unfolding handle_bbb_script_error_code
handle_bbb_script_error_code_known lines err possible c found exit last known =
    rw (found, exit, text_eq_self (text "exit status 1"), last) (line_code_of_IsIn c possible known)

pub output_lines-ne-nil : (raw : Text) → output_lines raw ≢ []
unfolding output_lines
output_lines-ne-nil raw = split-ne-nil b'\n' (trim_suffix raw newline)

last_of_ne_nil : {A : Type 0} (xs : List A) → xs ≢ [] → (y : A) × (get_last? xs ≡ some y)
last_of_ne_nil [] h = absurd (h refl)
last_of_ne_nil (x ∷ xs) h = get_last?_of_cons x xs

-- Every output has a last line, so the branches for an empty output are never taken.
pub output_lines_last : (raw : Text) → (line : Text) × (get_last? (output_lines raw) ≡ some line)
output_lines_last raw = last_of_ne_nil (output_lines raw) (output_lines-ne-nil raw)
