-- ===== src/Config/Security.antt =====
-- src/api/security-mode.ts
use dataspace_ica_ts.Common.{
  String, Bool, true, false, not, ◌&&◌, ◌||◌, Option, none, some, ◌==◌, is_empty, if◌then◌else◌,
  Result, ok, throw, ◌>>=◌, reject_if,
}
use dataspace_ica_ts.Text.{trim, to_lower}

pub data SecurityMode : Type 0 where
  strict compat demo : SecurityMode

pub record SecurityEnv : Type 0 where
  pub security_mode : Option String
  pub demo_mode : Option String
  pub json_legacy : Option String
  pub demo_allow_insecure_bearer : Option String
  pub allow_legacy_didcomm_plaintext_media_type : Option String
  pub allow_legacy_contract : Option String
  pub node_env : Option String

pub record SecurityConfig : Type 0 where
  pub security_mode : SecurityMode
  pub json_legacy : Bool
  pub demo_allow_insecure_bearer : Bool
  pub allow_legacy_didcomm_plaintext_media_type : Bool
  pub allow_legacy_contract : Bool

unfoldable pub parse_boolean_env : Option String → Bool → Bool
parse_boolean_env none fallback = fallback
parse_boolean_env (some value) fallback =
    let normalized = to_lower (trim value) in
    if normalized == "1" || normalized == "true" || normalized == "yes" || normalized == "on"
    then true
    else if normalized == "0" || normalized == "false" || normalized == "no" || normalized == "off"
    then false
    else fallback

abbrev pub text_of : Option String → String
text_of none = ""
text_of (some s) = s

unfoldable pub parse_security_mode : Option String → Result (Option SecurityMode)
parse_security_mode value =
    let normalized = to_lower (trim (text_of value)) in
    if is_empty normalized
    then ok none
    else if normalized == "strict"
    then ok (some strict)
    else if normalized == "compat"
    then ok (some compat)
    else if normalized == "demo"
    then ok (some demo)
    else throw "Invalid SECURITY_MODE. Expected strict | compat | demo."

unfoldable pub resolve_default_mode : SecurityEnv → SecurityMode
unfolding parse_boolean_env
resolve_default_mode env = if parse_boolean_env env.demo_mode false then demo else compat

abbrev pub is_strict : SecurityMode → Bool
is_strict strict = true
is_strict compat = false
is_strict demo = false

abbrev pub is_compat : SecurityMode → Bool
is_compat strict = false
is_compat compat = true
is_compat demo = false

abbrev pub is_demo : SecurityMode → Bool
is_demo strict = false
is_demo compat = false
is_demo demo = true

abbrev mode_or : Option SecurityMode → SecurityMode → SecurityMode
mode_or none fallback = fallback
mode_or (some mode) fallback = mode

config_at : SecurityEnv → SecurityMode → SecurityConfig
unfolding parse_boolean_env
config_at env mode = record {
  security_mode = mode;
  json_legacy = parse_boolean_env env.json_legacy (not (is_strict mode));
  demo_allow_insecure_bearer = parse_boolean_env env.demo_allow_insecure_bearer false;
  allow_legacy_didcomm_plaintext_media_type =
      parse_boolean_env env.allow_legacy_didcomm_plaintext_media_type false;
  allow_legacy_contract = is_compat mode && parse_boolean_env env.allow_legacy_contract false;
}

unfoldable pub load_security_config : SecurityEnv → Result SecurityConfig
unfolding parse_security_mode resolve_default_mode config_at
load_security_config env = do
  mode ← parse_security_mode env.security_mode
  ok (config_at env (mode_or mode (resolve_default_mode env)))

unfoldable pub assert_startup_guardrails : SecurityEnv → SecurityConfig → Result (Unit {0})
assert_startup_guardrails env config =
    reject_if
      (to_lower (trim (text_of env.node_env)) == "production" && is_demo config.security_mode)
      "SECURITY_MODE=demo is not allowed when NODE_ENV=production."
