-- ===== src/Middleware/Hostname.antt =====
-- `SetHostname` of middleware/src/middleware.go and `setHSMConfig` of middleware/src/util.go.
pub mod Grammar
pub mod Panic
use bitbox_base.Base.{
  ℕ, zero, suc, Bool, true, false, ◌&&◌, ◌||◌, Option, none, some, List, [], ◌∷◌, Action, pure,
  gets, ◌>>=◌, ◌>>◌, leb, ◌==◌, if◌then◌else◌, is_some,
}
use bitbox_base.Base.Text.{Text, text}
use bitbox_base.Rpcmessages.{
  ErrorCode, ErrorResponse, succeeded, failed, no_code, error_set_hostname_invalid_value,
  SetHostnameArgs,
}
use bitbox_base.System.{System, GoError, Returns}
use bitbox_base.System.Keys.{key_text, base_hostname, query_text, base_system_info}
use bitbox_base.Middleware.State.{State, M, outside}
use bitbox_base.Middleware.Scripts.{script_response, run_bbb_config_script}

-- A goroutine without a recover ends the program when it panics.
pub data Outcome (A : Type 0) : Type 0 where
  returns : A → Outcome A
  panics : Outcome A

-- The regular expression `^[a-z][a-z0-9-]{0,22}[a-z0-9]$` on bytes.
abbrev pub is_lower : ℕ → Bool
is_lower c = leb b'a' c && leb c b'z'

abbrev pub is_lower_or_digit : ℕ → Bool
is_lower_or_digit c = is_lower c || (leb b'0' c && leb c b'9')

abbrev pub is_inner : ℕ → Bool
is_inner c = is_lower_or_digit c || c == b'-'

-- `[a-z0-9-]{0,n}[a-z0-9]$`
unfoldable pub matches_rest : ℕ → Text → Bool
matches_rest n [] = false
matches_rest n (c ∷ []) = is_lower_or_digit c
matches_rest zero (c ∷ d ∷ s) = false
matches_rest (suc n) (c ∷ d ∷ s) = is_inner c && matches_rest n (d ∷ s)

unfoldable pub is_hostname : Text → Bool
unfolding matches_rest
is_hostname [] = false
is_hostname (c ∷ s) = is_lower c && matches_rest 22 s

module _ (sys : System) where
  -- The end of `setHSMConfig`. `To4()` of an address that cannot be parsed is nil, and slicing nil
  -- to four bytes panics.
  abbrev configure_hsm : Text → Option Text → M sys (Outcome (Option GoError))
  configure_hsm hostname none = pure panics
  configure_hsm hostname (some ip) = do
    err ← outside sys (sys.hsm_set_config ip hostname)
    pure (returns err)

  abbrev with_hostname : Returns Text → M sys (Outcome (Option GoError))
  with_hostname (hostname, some err) = pure (returns (some err))
  with_hostname (hostname, none) = do
    (ip, err) ←
        outside sys
          (sys.prometheus.get_metric_string (query_text base_system_info) (text "base_ipaddress"))
    elim err [ some e ↦ pure (returns (some e)) | none ↦ configure_hsm hostname (sys.parse_ip4 ip) ]

  unfoldable pub set_hsm_config : M sys (Outcome (Option GoError))
  set_hsm_config s =
      let connected : M sys (Outcome (Option GoError)) = (do
        hostname ← outside sys (sys.redis.get_string (key_text base_hostname))
        with_hostname hostname) in
      if s.has_hsm_firmware then connected s else (returns none, s)

  -- An error of `setHSMConfig` is only logged; a panic is not caught.
  abbrev pub ignore_error : Outcome (Option GoError) → M sys (Outcome ErrorResponse)
  ignore_error (returns err) = pure (returns succeeded)
  ignore_error panics = pure panics

  abbrev pub after_script : Returns (List Text) → M sys (Outcome ErrorResponse)
  after_script (out, some err) =
      pure (returns (script_response (error_set_hostname_invalid_value ∷ []) (out, some err)))
  after_script (out, none) = do configured ← set_hsm_config; ignore_error configured

  unfoldable pub set_hostname : SetHostnameArgs → M sys (Outcome ErrorResponse)
  set_hostname args =
      let change : M sys (Outcome ErrorResponse) = (do
        result ← run_bbb_config_script sys (text "set" ∷ text "hostname" ∷ args.hostname ∷ [])
        after_script result) in
      if is_hostname args.hostname
      then change
      else pure (returns (failed no_code (text "invalid hostname")))
