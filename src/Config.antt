-- ===== src/Config.antt =====
-- internal/config/config.go: suctl.conf. The YAML decoder is a parameter: it may set any field of
-- the configuration that it is given.
pub mod Usable
use suctl.Prelude.{
  ℕ, String, ℤ, pos, is_positive, ◌≡◌, refl, true, false, List, [], Option, none, some, ◌==◌, arith,
  inl, inr, Bool-cases, if◌then◌else◌,
}

-- The compiled-in fallbacks.
abbrev pub default_logo_url : String
default_logo_url = "https://solutionsunity.com/web/image/website/1/logo"

abbrev pub default_contact_url : String
default_contact_url = "https://solutionsunity.com/contactus"

abbrev pub default_health_max_restarts : ℕ
default_health_max_restarts = 5

abbrev pub default_handshake_timeout_seconds : ℕ
default_handshake_timeout_seconds = 15

abbrev pub default_health_check_interval_seconds : ℕ
default_health_check_interval_seconds = 30

abbrev pub default_health_fail_threshold : ℕ
default_health_fail_threshold = 3

abbrev pub default_hook_timeout_seconds : ℕ
default_hook_timeout_seconds = 30

abbrev pub default_supervisor_max_restarts : ℕ
default_supervisor_max_restarts = 3

abbrev pub default_supervisor_restart_window_seconds : ℕ
default_supervisor_restart_window_seconds = 60

abbrev pub default_supervisor_stop_timeout_seconds : ℕ
default_supervisor_stop_timeout_seconds = 30

abbrev pub default_admit_timeout_seconds : ℕ
default_admit_timeout_seconds = 300

pub record Config : Type 0 where
  pub logo_url : String
  pub contact_url : String
  pub module_paths : List String
  pub health_max_restarts : ℤ
  pub handshake_timeout_seconds : ℤ
  pub health_check_interval_seconds : ℤ
  pub health_fail_threshold : ℤ
  pub hook_timeout_seconds : ℤ
  pub supervisor_max_restarts : ℤ
  pub supervisor_restart_window_seconds : ℤ
  pub supervisor_stop_timeout_seconds : ℤ
  pub admit_timeout_seconds : ℤ

abbrev pub defaults : Config
defaults = record {
  logo_url = default_logo_url;
  contact_url = default_contact_url;
  module_paths = [];
  health_max_restarts = pos default_health_max_restarts;
  handshake_timeout_seconds = pos default_handshake_timeout_seconds;
  health_check_interval_seconds = pos default_health_check_interval_seconds;
  health_fail_threshold = pos default_health_fail_threshold;
  hook_timeout_seconds = pos default_hook_timeout_seconds;
  supervisor_max_restarts = pos default_supervisor_max_restarts;
  supervisor_restart_window_seconds = pos default_supervisor_restart_window_seconds;
  supervisor_stop_timeout_seconds = pos default_supervisor_stop_timeout_seconds;
  admit_timeout_seconds = pos default_admit_timeout_seconds;
}

abbrev pub text_or : String → String → String
text_or fallback text = if text == "" then fallback else text

-- A value that is not positive falls back.
abbrev pub positive_or : ℕ → ℤ → ℤ
positive_or fallback n = if is_positive n then n else pos fallback

-- apply below the decoder.
unfoldable pub restore : Config → Config
restore c = record {
  logo_url = text_or default_logo_url c.logo_url;
  contact_url = text_or default_contact_url c.contact_url;
  module_paths = c.module_paths;
  health_max_restarts = positive_or default_health_max_restarts c.health_max_restarts;
  handshake_timeout_seconds =
      positive_or default_handshake_timeout_seconds c.handshake_timeout_seconds;
  health_check_interval_seconds =
      positive_or default_health_check_interval_seconds c.health_check_interval_seconds;
  health_fail_threshold = positive_or default_health_fail_threshold c.health_fail_threshold;
  hook_timeout_seconds = positive_or default_hook_timeout_seconds c.hook_timeout_seconds;
  supervisor_max_restarts = positive_or default_supervisor_max_restarts c.supervisor_max_restarts;
  supervisor_restart_window_seconds =
      positive_or default_supervisor_restart_window_seconds c.supervisor_restart_window_seconds;
  supervisor_stop_timeout_seconds =
      positive_or default_supervisor_stop_timeout_seconds c.supervisor_stop_timeout_seconds;
  admit_timeout_seconds = positive_or default_admit_timeout_seconds c.admit_timeout_seconds;
}

-- apply: an error of the decoder is ignored, with what it has set so far.
unfoldable pub apply : (String → Config → Config) → String → Config → Config
apply unmarshal text c = restore (unmarshal text c)

-- LoadFrom: `read` is what os.ReadFile gives, or none for an error.
unfoldable pub load_from : (String → Option String) → (String → Config → Config) → String → Config
load_from read unmarshal path = elim (read path) [
  | none ↦ defaults
  | some text ↦ apply unmarshal text defaults
]
