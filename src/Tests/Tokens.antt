-- ===== src/Tests/Tokens.antt =====
-- Scopes and tokens at a concrete input.
use phantom_skills.Prelude.{
  All, ℕ, ◌≡◌, ◌⊎◌, refl, inl, inr, Bool, true, false, Option, none, some, List, [], ◌∷◌, codes,
  pos,
}
use phantom_skills.Text.{Text, text_eq}
use phantom_skills.Scopes.{
  ScopeOverrides, ScopeAuth, ScopeDefaults, Registry, Entry, absent, decoded, load_scope_files,
  binding_of, empty_registry, listed, load, bearer_from_header, authenticate,
}
use phantom_skills.Server.Config.{ServerConfig, Environment, apply_server_defaults}
use phantom_skills.Server.Config.Defaults.{
  numbers, words, variables, NumberFilled, WordFilled, Overridden, apply_server_defaults_lem,
}
use phantom_skills.Scopes.Bearer.{load-authenticate}

abbrev pub defaults : ScopeDefaults
defaults = record { sync_change_feed_page = pos 100 }

abbrev pub personal_auth : ScopeAuth
personal_auth = record { bearer_token = codes "s3cret"; description = "" }

abbrev pub work_auth : ScopeAuth
work_auth = record { bearer_token = codes "0ther"; description = "" }

abbrev pub personal : Entry
personal = record {
  name = "personal";
  is_dir = true;
  config = absent;
  auth = decoded personal_auth;
}

abbrev pub no_overrides : ScopeOverrides
no_overrides = record { skillset = ""; sync_change_feed_page = pos 0 }

abbrev pub work_overrides : ScopeOverrides
work_overrides = record { skillset = "office"; sync_change_feed_page = pos 20 }

abbrev pub work : Entry
work = record {
  name = "work";
  is_dir = true;
  config = decoded work_overrides;
  auth = decoded work_auth;
}

abbrev pub entries : List Entry
entries = personal ∷ work ∷ []

abbrev pub registry : Registry
registry = (load (codes "/etc/pskills") defaults (listed entries) empty_registry).1

loaded : load (codes "/etc/pskills") defaults (listed entries) empty_registry ≡ (some 2, registry)
unfolding load
loaded = refl

abbrev pub folds : Text → Bool
folds s = text_eq s (codes "bearer")

borne : bearer_from_header folds (codes " bearer   0ther ") ≡ some work_auth.bearer_token
unfolding bearer_from_header text_eq
borne = refl

read_files : load_scope_files work ≡ some (work_overrides, work_auth)
unfolding load_scope_files
read_files = refl

load-authenticate_example :
    ((◌≡◌ {A = Option ℕ} (some 2) none) × (registry ≡ empty_registry))
    ⊎ (authenticate folds registry (codes " bearer   0ther ")
        ≡ some (binding_of defaults work work_overrides work_auth))
load-authenticate_example =
    load-authenticate (codes "/etc/pskills") defaults entries empty_registry (some 2) registry refl
      loaded folds work work_overrides work_auth (codes " bearer   0ther ") (inr (inl refl)) refl
      read_files borne

-- A server.toml that sets the database and the cap of ratchets.
abbrev bare : ServerConfig
bare = record {
  port = pos 0;
  host = "";
  log_level = "";
  postgres_dsn = codes "postgres://file";
  brain = record {
    api = [];
    token = [];
    profile = "";
    vault = "";
    record_learnings = false;
    record_telemetry = false;
  };
  pipeline = record {
    detector_poll_interval_secs = pos 0;
    min_usage_for_promote = pos 0;
    auto_approve_below_risk = pos 0;
  };
  brainbox = record { api = []; api_key = [] };
  registry = record {
    repo_url = "";
    max_concurrent_ratchets = pos 7;
    ratchet_cooldown_hours = pos 0;
  };
  defaults = record { sync_change_feed_page = pos 0 };
}

abbrev environment : Environment
environment = record {
  postgres_dsn = codes " postgres://env ";
  brain_token = [];
  brainbox_key = [];
}

overridden : (apply_server_defaults environment bare).postgres_dsn ≡ codes "postgres://env"
unfolding apply_server_defaults
overridden = refl

apply_server_defaults_lem_example :
    All (NumberFilled bare (apply_server_defaults environment bare)) numbers
    × All (WordFilled bare (apply_server_defaults environment bare)) words
    × All (Overridden environment bare (apply_server_defaults environment bare)) variables
    × ((apply_server_defaults environment bare).pipeline.auto_approve_below_risk
        ≡ bare.pipeline.auto_approve_below_risk)
    × (record (apply_server_defaults environment bare).brain { token = bare.brain.token }
        ≡ bare.brain)
    × ((apply_server_defaults environment bare).registry.repo_url ≡ bare.registry.repo_url)
    × ((apply_server_defaults environment bare).brainbox.api ≡ bare.brainbox.api)
    × (apply_server_defaults environment (apply_server_defaults environment bare)
        ≡ apply_server_defaults environment bare)
apply_server_defaults_lem_example = apply_server_defaults_lem environment bare
