-- ===== src/Cost/Config/Tests.antt =====
-- Environments for `CostTrackingConfig.from_env` of openai_compatible_bridge/core/cost_tracking.py.
use openai_compatible_bridge.Prelude.{
  none, some, String, List, [], ◌∷◌, ◌≡◌, refl, if◌then◌else◌, str_eq,
}
use openai_compatible_bridge.Prelude.Int.{pos}
use openai_compatible_bridge.Prelude.Result.{err, Ensures}
use openai_compatible_bridge.Prelude.Bytes.{
  codes, strip, lstrip_space, rstrip_space, is_space, lower_bytes, lower_byte, digits_value,
}
use openai_compatible_bridge.Cost.Config.{
  decimal, Numbers, Env, CostTrackingConfig, parse_bool, config_from_env, split_commas, comma_parts,
  provider_names,
}
use openai_compatible_bridge.Cost.Config.Consistent.{IsConfig, config_from_env-IsConfig}

abbrev numbers : Numbers
numbers = record {
  int_of_text = λ t. some (pos (digits_value 0 t));
  decimal_of_text = λ t. decimal (pos (digits_value 0 t));
}

abbrev env_of : List (String × String) → Env
env_of [] name = none
env_of (e ∷ es) name = if str_eq e.0 name then some (codes e.1) else env_of es name

abbrev settings : List (String × String)
settings =
    ("COST_TRACKING_ENABLED", " True")
    ∷ ("COST_LEDGER_PATH", "/data/ledger.db")
    ∷ ("COST_PRICING_JSON", "{}")
    ∷ ("COST_SHORT_WINDOW_SECONDS", "3600")
    ∷ ("COST_SHORT_WINDOW_LIMIT_USD", "5")
    ∷ ("COST_DAILY_LIMIT_USD", "unlimited")
    ∷ []

abbrev administered : List (String × String)
administered = ("COST_ADMIN_ENABLED", "yes") ∷ []

-- The administration needs the cost tracking.
administered_test :
    config_from_env numbers (env_of administered)
    ≡ err "COST_ADMIN_ENABLED requires COST_TRACKING_ENABLED=true"
unfolding config_from_env parse_bool strip lstrip_space rstrip_space is_space lower_bytes lower_byte
administered_test = refl

provider_names_test :
    provider_names (comma_parts (codes "Vertex,ollama")) ≡ codes "vertex" ∷ codes "ollama" ∷ []
unfolding provider_names split_commas strip lstrip_space rstrip_space is_space lower_bytes
    lower_byte
provider_names_test = refl

config_from_env-IsConfig_example :
    Ensures
      (λ (c : CostTrackingConfig). IsConfig (env_of settings) c.tracking)
      (config_from_env numbers (env_of settings))
config_from_env-IsConfig_example = config_from_env-IsConfig numbers (env_of settings)
