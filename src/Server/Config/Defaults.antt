-- ===== src/Server/Config/Defaults.antt =====
-- The defaults of server.toml and the overrides from the environment, against a table of them.
use phantom_skills.Prelude.{
  ℕ, ◌≡◌, ◌≢◌, ◌⊎◌, if◌then◌else◌, refl, String, false, ◌==◌, ℤ, pos, negsuc, zero, suc, List, [],
  ◌∷◌, All, Bool-cases, inl, inr, arith, eq_iff,
}
use phantom_skills.Text.{Text, trim_space, is_empty}
use phantom_skills.Server.Config.{
  ServerConfig, Environment, or_default, or_string, override, apply_server_defaults,
}

-- The settings with a default, and the default.
abbrev pub numbers : List ((ServerConfig → ℤ) × ℕ)
numbers =
    (λ c. c.port, 9997)
    ∷ (λ c. c.registry.max_concurrent_ratchets, 2)
    ∷ (λ c. c.registry.ratchet_cooldown_hours, 24)
    ∷ (λ c. c.pipeline.detector_poll_interval_secs, 60)
    ∷ (λ c. c.pipeline.min_usage_for_promote, 5)
    ∷ (λ c. c.defaults.sync_change_feed_page, 100)
    ∷ []

abbrev pub words : List ((ServerConfig → String) × String)
words = (λ c. c.host, "0.0.0.0") ∷ (λ c. c.log_level, "info") ∷ []

-- The variables that override a setting, and the setting.
abbrev pub variables : List ((Environment → Text) × (ServerConfig → Text))
variables =
    (λ e. e.postgres_dsn, λ c. c.postgres_dsn)
    ∷ (λ e. e.brain_token, λ c. c.brain.token)
    ∷ (λ e. e.brainbox_key, λ c. c.brainbox.api_key)
    ∷ []

module _ (c out : ServerConfig) where
  abbrev pub NumberFilled : (ServerConfig → ℤ) × ℕ → Type 0
  NumberFilled (read, d) =
      ((read c ≡ pos 0) × (read out ≡ pos d)) ⊎ ((read c ≢ pos 0) × (read out ≡ read c))

  abbrev pub WordFilled : (ServerConfig → String) × String → Type 0
  WordFilled (read, d) = ((read c ≡ "") × (read out ≡ d)) ⊎ ((read c ≢ "") × (read out ≡ read c))

module _ (env : Environment) (c out : ServerConfig) where
  abbrev pub Overridden : (Environment → Text) × (ServerConfig → Text) → Type 0
  Overridden (var, read) =
      ((trim_space (var env) ≡ []) × (read out ≡ read c))
      ⊎ ((trim_space (var env) ≢ []) × (read out ≡ trim_space (var env)))

number :
    (z : ℤ) (n : ℕ)
    → ((z ≡ pos 0) × (or_default z (pos n) ≡ pos n)) ⊎ ((z ≢ pos 0) × (or_default z (pos n) ≡ z))
number (pos zero) n = inl (refl, refl)
number (pos (suc k)) n = inr (λ e. absurd (ground arith), refl)
number (negsuc k) n = inr (λ e. absurd (ground arith), refl)

word : (s d : String) → ((s ≡ "") × (or_string s d ≡ d)) ⊎ ((s ≢ "") × (or_string s d ≡ s))
word s d = elim (Bool-cases (s == "")) [
  | inl e ↦ inl ((eq_iff s "").0 e, rw e refl)
  | inr e ↦ inr (λ same. absurd (ground (arith, e, (eq_iff s "").1 same)), rw e refl)
]

empty_or :
    (t x : Text)
    → ((t ≡ []) × ((if is_empty t then x else t) ≡ x))
      ⊎ ((t ≢ []) × ((if is_empty t then x else t) ≡ t))
empty_or [] x = inl (refl, refl)
empty_or (a ∷ t) x = inr (λ e. absurd (ground arith), refl)

variable :
    (v x : Text)
    → ((trim_space v ≡ []) × (override v x ≡ x))
      ⊎ ((trim_space v ≢ []) × (override v x ≡ trim_space v))
unfolding override
variable v x = empty_or (trim_space v) x

or_default-again :
    (z : ℤ) (n : ℕ)
    → or_default (or_default z (pos (suc n))) (pos (suc n)) ≡ or_default z (pos (suc n))
or_default-again (pos zero) n = refl
or_default-again (pos (suc k)) n = refl
or_default-again (negsuc k) n = refl

or_string-again : (s d : String) → (d == "") ≡ false → or_string (or_string s d) d ≡ or_string s d
or_string-again s d h = elim (Bool-cases (s == "")) [
  | inl e ↦ rw (e, h) refl
  | inr e ↦ rw (e, e) refl
]

override-again : (v x : Text) → override v (override v x) ≡ override v x
unfolding override
override-again v x = elim (Bool-cases (is_empty (trim_space v))) [
  | inl e ↦ rw (e, override) refl
  | inr e ↦ rw (e, override) refl
]

-- A setting of the table that is zero, or empty, gets its default, and any other stays; a setting
-- that a variable overrides gets the variable's trimmed value if this is not empty, and stays
-- otherwise. The risk below which proposals are approved, the fields of the brain but its token, the
-- registry's address and brainbox's stay. Applying the defaults again in the same
-- environment changes nothing.
pub apply_server_defaults_lem :
    (env : Environment) (c : ServerConfig)
    → All (NumberFilled c (apply_server_defaults env c)) numbers
      × All (WordFilled c (apply_server_defaults env c)) words
      × All (Overridden env c (apply_server_defaults env c)) variables
      × ((apply_server_defaults env c).pipeline.auto_approve_below_risk
          ≡ c.pipeline.auto_approve_below_risk)
      × (record (apply_server_defaults env c).brain { token = c.brain.token } ≡ c.brain)
      × ((apply_server_defaults env c).registry.repo_url ≡ c.registry.repo_url)
      × ((apply_server_defaults env c).brainbox.api ≡ c.brainbox.api)
      × (apply_server_defaults env (apply_server_defaults env c) ≡ apply_server_defaults env c)
unfolding apply_server_defaults
apply_server_defaults_lem env c = (
  (
    number c.port 9997,
    (
      number c.registry.max_concurrent_ratchets 2,
      (
        number c.registry.ratchet_cooldown_hours 24,
        (
          number c.pipeline.detector_poll_interval_secs 60,
          (
            number c.pipeline.min_usage_for_promote 5,
            (number c.defaults.sync_change_feed_page 100, tt),
          ),
        ),
      ),
    ),
  ),
  (word c.host "0.0.0.0", (word c.log_level "info", tt)),
  (
    variable env.postgres_dsn c.postgres_dsn,
    (variable env.brain_token c.brain.token, (variable env.brainbox_key c.brainbox.api_key, tt)),
  ),
  refl,
  refl,
  refl,
  refl,
  rw
      (
        or_default-again c.port 9996,
        or_string-again c.host "0.0.0.0" refl,
        or_string-again c.log_level "info" refl,
        override-again env.postgres_dsn c.postgres_dsn,
        override-again env.brain_token c.brain.token,
        override-again env.brainbox_key c.brainbox.api_key,
        or_default-again c.pipeline.detector_poll_interval_secs 59,
        or_default-again c.pipeline.min_usage_for_promote 4,
        or_default-again c.registry.max_concurrent_ratchets 1,
        or_default-again c.registry.ratchet_cooldown_hours 23,
        or_default-again c.defaults.sync_change_feed_page 99,
      )
      refl,
)
