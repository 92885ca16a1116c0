-- ===== src/Middleware/Hostname/Panic.antt =====
-- How `SetHostname` (middleware/src/middleware.go) ends when the IP address that Prometheus reports
-- cannot be parsed (middleware/src/util.go, `setHSMConfig`).
use bitbox_base.Base.{sym, ap, ◌↔◌, ◌++◌, ◌≡◌, refl, ◌∙◌, true, Option, none, List, [], ◌∷◌, arith}
use bitbox_base.Base.Text.{Text, text}
use bitbox_base.Rpcmessages.{ErrorResponse, succeeded, SetHostnameArgs}
use bitbox_base.System.{System, GoError}
use bitbox_base.System.Keys.{key_text, base_hostname, query_text, base_system_info}
use bitbox_base.Middleware.State.{State, run}
use bitbox_base.Middleware.Scripts.{run_bbb_config_script}
use bitbox_base.Middleware.Hostname.{
  Outcome, returns, panics, is_hostname, set_hsm_config, set_hostname,
}

-- A panic is passed on, and an error is only logged.
abbrev pub passed_on : Outcome (Option GoError) → Outcome ErrorResponse
passed_on (returns err) = returns succeeded
passed_on panics = panics

passed_on-panics : (o : Outcome (Option GoError)) → passed_on o ≡ panics → o ≡ panics
passed_on-panics (returns err) h = absurd (ground arith)
passed_on-panics panics h = refl

module _ (sys : System) where
  run_bbb_config_script-hsm :
      (command : List Text) (s : State sys)
      → (run_bbb_config_script sys command s).1.has_hsm_firmware ≡ s.has_hsm_firmware
  unfolding run_bbb_config_script
  run_bbb_config_script-hsm command s = refl

  -- `setHSMConfig` panics, since it slices a nil address, exactly with an HSM, a hostname in Redis and
  -- an answer of Prometheus whose address does not parse as an IPv4 address.
  set_hsm_config-panics :
      (s : State sys)
      → let (host, w) = sys.redis.get_string (key_text base_hostname) s.world in
        let (ip, _) =
          sys.prometheus.get_metric_string
            (query_text base_system_info)
            (text "base_ipaddress")
            w in
        ((set_hsm_config sys s).0 ≡ panics) ↔ (
          (s.has_hsm_firmware ≡ true)
          × (host.1 ≡ none)
          × (ip.1 ≡ none)
          × (sys.parse_ip4 ip.0 ≡ none))
  unfolding set_hsm_config
  set_hsm_config-panics s = (λ h. ground arith, λ h. ground arith)

  set_hsm_config-calls : (s : State sys) → (set_hsm_config sys s).1.calls ≡ s.calls
  unfolding set_hsm_config
  set_hsm_config-calls s = ground arith

  -- `SetHostname` on a valid name whose script succeeds answers success unless `setHSMConfig`
  -- panics, in which case it panics too.
  pub set_hostname_applied :
      (args : SetHostnameArgs) (s : State sys)
      → is_hostname args.hostname ≡ true
      → let (result, t) =
          run_bbb_config_script sys (text "set" ∷ text "hostname" ∷ args.hostname ∷ []) s in
        result.1 ≡ none
        → set_hostname sys args s ≡ (passed_on (set_hsm_config sys t).0, (set_hsm_config sys t).1)
  unfolding set_hostname
  set_hostname_applied args s valid ok = ground arith

  set_hostname_ran :
      (args : SetHostnameArgs) (s : State sys)
      → (set_hostname sys args s).0 ≡ panics
      → (is_hostname args.hostname ≡ true)
        × ((run_bbb_config_script sys (text "set" ∷ text "hostname" ∷ args.hostname ∷ []) s).0.1
            ≡ none)
  unfolding set_hostname
  set_hostname_ran args s h = ground arith

  -- `SetHostname` panics, and so answers nothing, exactly if the name is valid, its script succeeds,
  -- there is an HSM, Redis answers its hostname, and the address that Prometheus reports does not parse
  -- as an IPv4 address. The script is then the one command that was run: the hostname has been set.
  pub set_hostname-panics :
      (args : SetHostnameArgs) (s : State sys)
      → let command = text "set" ∷ text "hostname" ∷ args.hostname ∷ [] in
        let (result, t) = run_bbb_config_script sys command s in
        let (host, w) = sys.redis.get_string (key_text base_hostname) t.world in
        let (ip, _) =
          sys.prometheus.get_metric_string
            (query_text base_system_info)
            (text "base_ipaddress")
            w in
        ((set_hostname sys args s).0 ≡ panics) ↔ (
          (is_hostname args.hostname ≡ true)
          × (result.1 ≡ none)
          × (s.has_hsm_firmware ≡ true)
          × (host.1 ≡ none)
          × (ip.1 ≡ none)
          × (sys.parse_ip4 ip.0 ≡ none)
          × ((set_hostname sys args s).1.calls
              ≡ s.calls ++ (run s.config.bbb_config_script command ∷ [])))
  unfolding run_bbb_config_script
  set_hostname-panics args s =
      let command = text "set" ∷ text "hostname" ∷ args.hostname ∷ [] in
      let t = (run_bbb_config_script sys command s).1 in
      let (to, from) = set_hsm_config-panics t in
      (
        λ h.
            let (valid, ok) = set_hostname_ran args s h in
            let applied = set_hostname_applied args s valid ok in
            let (present, host, ip, parsed) =
              to (passed_on-panics _ (sym (ap (λ r. r.0) applied) ∙ h)) in
            (
              valid,
              ok,
              present,
              host,
              ip,
              parsed,
              ap (λ r. r.1.calls) applied ∙ set_hsm_config-calls t,
            ),
        λ h.
            let (valid, ok, present, host, ip, parsed, _) = h in
            ap (λ r. r.0) (set_hostname_applied args s valid ok)
            ∙ ap passed_on (from (present, host, ip, parsed)),
      )
