-- ===== src/Server/Config.antt =====
-- server.toml as decoded, its defaults and the overrides from the environment: `applyServerDefaults`
-- of internal/server/config.go; and the lookups of internal/server/registry.go that are not for
-- authentication.
pub mod Defaults
use phantom_skills.Prelude.{
  String, Bool, not, ◌==◌, Option, if◌then◌else◌, ℤ, pos, negsuc, zero, suc, List, first,
}
use phantom_skills.Prelude.Order.{sort_by}
use phantom_skills.Text.{Text, trim_space, is_empty}
use phantom_skills.Ratchet.Improver.{RegistryConfig}
use phantom_skills.Scopes.{ScopeKey, ScopeBinding, ScopeDefaults, Registry, same_key}

pub record BrainConfig : Type 0 where
  pub api : Text
  pub token : Text
  pub profile : String
  pub vault : String
  pub record_learnings : Bool
  pub record_telemetry : Bool

pub record PipelineConfig : Type 0 where
  pub detector_poll_interval_secs : ℤ
  pub min_usage_for_promote : ℤ
  pub auto_approve_below_risk : ℤ

pub record BrainboxConfig : Type 0 where
  pub api : Text
  pub api_key : Text

pub record ServerConfig : Type 0 where
  pub port : ℤ
  pub host : String
  pub log_level : String
  pub postgres_dsn : Text
  pub brain : BrainConfig
  pub pipeline : PipelineConfig
  pub brainbox : BrainboxConfig
  pub registry : RegistryConfig
  pub defaults : ScopeDefaults

-- `Enabled` of BrainConfig and of BrainboxConfig.
unfoldable pub enabled : Text → Bool
unfolding trim_space
enabled api = not (is_empty (trim_space api))

-- The environment variables that are read.
pub record Environment : Type 0 where
  pub postgres_dsn : Text
  pub brain_token : Text
  pub brainbox_key : Text

-- `if x == 0 { x = d }`
abbrev pub or_default : ℤ → ℤ → ℤ
or_default (pos zero) d = d
or_default (pos (suc n)) d = pos (suc n)
or_default (negsuc n) d = negsuc n

abbrev pub or_string : String → String → String
or_string s d = if s == "" then d else s

-- `if v := strings.TrimSpace(os.Getenv(…)); v != "" { x = v }`
unfoldable pub override : Text → Text → Text
unfolding trim_space
override v x = if is_empty (trim_space v) then x else trim_space v

unfoldable pub apply_server_defaults : Environment → ServerConfig → ServerConfig
unfolding override
apply_server_defaults env c = record {
  port = or_default c.port (pos 9997);
  host = or_string c.host "0.0.0.0";
  log_level = or_string c.log_level "info";
  postgres_dsn = override env.postgres_dsn c.postgres_dsn;
  brain = record c.brain { token = override env.brain_token c.brain.token };
  pipeline = record c.pipeline {
    detector_poll_interval_secs = or_default c.pipeline.detector_poll_interval_secs (pos 60);
    min_usage_for_promote = or_default c.pipeline.min_usage_for_promote (pos 5);
  };
  brainbox = record c.brainbox { api_key = override env.brainbox_key c.brainbox.api_key };
  registry = record c.registry {
    max_concurrent_ratchets = or_default c.registry.max_concurrent_ratchets (pos 2);
    ratchet_cooldown_hours = or_default c.registry.ratchet_cooldown_hours (pos 24);
  };
  defaults = record {
    sync_change_feed_page = or_default c.defaults.sync_change_feed_page (pos 100);
  };
}

unfoldable pub lookup_by_scope : ScopeKey → Registry → Option ScopeBinding
lookup_by_scope k r = first (same_key k) r.by_scope

-- `Scopes`: sorted by profile and skillset; `lt` is the order of strings.
abbrev pub by_key : (String → String → Bool) → ScopeBinding → ScopeBinding → Bool
by_key lt a b =
    if a.key.profile == b.key.profile
    then not (lt b.key.skillset a.key.skillset)
    else lt a.key.profile b.key.profile

unfoldable pub scopes : (String → String → Bool) → Registry → List ScopeBinding
scopes lt r = sort_by (by_key lt) r.by_scope
