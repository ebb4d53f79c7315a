-- ===== src/Config/Laws.antt =====
-- What a server that has started may be configured to do.
use dataspace_ica_ts.Common.{◌≡◌, true, false, arith, eq_iff, ok, bind-ok}
use dataspace_ica_ts.Text.{trim, to_lower}
use dataspace_ica_ts.Config.Security.{
  SecurityEnv, SecurityConfig, load_security_config, assert_startup_guardrails, is_demo, is_compat,
  parse_security_mode, text_of,
}

-- What starting in production leaves: the configuration was read, and the guardrails let it pass.
pub record IsStarted (env : SecurityEnv) (config : SecurityConfig) : Type 0 where
  pub loaded : load_security_config env ≡ ok config
  pub guarded : assert_startup_guardrails env config ≡ ok tt

-- In production a server that starts is not in demo mode.
pub IsStarted-production :
    (env : SecurityEnv) (config : SecurityConfig)
    → IsStarted env config
    → to_lower (trim (text_of env.node_env)) ≡ "production"
    → is_demo config.security_mode ≡ false
unfolding assert_startup_guardrails
IsStarted-production env config started production =
    let guarded = started.guarded in
    ground (arith, eq_iff (to_lower (trim (text_of env.node_env))) "production")

-- A configuration that was read accepts the legacy contract only in compat mode.
load_security_config-legacy :
    (env : SecurityEnv) (config : SecurityConfig)
    → load_security_config env ≡ ok config
    → config.allow_legacy_contract ≡ true
    → is_compat config.security_mode ≡ true
unfolding load_security_config
load_security_config-legacy env config h legacy =
    let (mode, _, e) = bind-ok (parse_security_mode env.security_mode) _ config h in ground arith
