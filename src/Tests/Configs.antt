-- ===== src/Tests/Configs.antt =====
-- The tunables of a block with one knob for each side, through the environment.
use srv6_ai_fabric.Prelude.{
  ◌≡◌, Option, String, String_eq, none, ok, raise, refl, some, value_error, if◌then◌else◌,
}
use srv6_ai_fabric.Prelude.Int.{pos}
use srv6_ai_fabric.Scenario.{MrcSpec, mrc_defaults, positive_int, ratio_field, validate_mrc}
use srv6_ai_fabric.Scenario.Documents.{
  Fields, Yaml, end, entry, get, has_all, int, mapping, only, require_keys,
}
use srv6_ai_fabric.Netem.{one_of}
use srv6_ai_fabric.Configs.{
  EvConfig, any_of, check_positive, configs_of, emit_set, env_payload, load_configs_from_env,
  make_agent_config,
}
use srv6_ai_fabric.Configs.Loads.{agent_of, ev_of, load_configs_from_env-to_env_json, or_defaults}
use srv6_ai_fabric.Tests.Fractions.{Fraction, frac, fractions}

-- A stand-in for `float` that reads no text.
abbrev read_float : String → Option Fraction
read_float s = none

abbrev block : Yaml Fraction
block = mapping (entry "probe_interval_ms" (int (pos 50)) (entry "rtt_ring_size" (int (pos 8)) end))

abbrev spec : MrcSpec Fraction
spec = record mrc_defaults { probe_interval_ms = some 50; rtt_ring_size = some 8 }

-- A stand-in for JSON on this block.
abbrev dumps : Fields Fraction → String
dumps d = "block"

abbrev loads : String → Option (Yaml Fraction)
loads s = if String_eq.beq s "block" then some (mapping (env_payload spec)) else none

program : Unit {0}
unfolding get has_all only require_keys one_of positive_int ratio_field validate_mrc emit_set any_of
    check_positive configs_of load_configs_from_env make_agent_config
program = tt

abbrev five_percent : Fraction
five_percent = frac 1 19

no_json : load_configs_from_env fractions five_percent loads (some "{") ≡ raise value_error
unfolding program
no_json = refl

unknown_key :
    configs_of fractions five_percent loads (mapping (entry "probe_interval" (int (pos 50)) end))
    ≡ raise value_error
unfolding program
unknown_key = refl

load_configs_from_env-to_env_json_example :
    (ev : Option (EvConfig Fraction)) × (load_configs_from_env fractions five_percent loads
        (some "block")
      ≡ ok (agent_of fractions five_percent spec, ev))
    × (or_defaults fractions five_percent ev ≡ ev_of fractions five_percent spec)
unfolding program
load_configs_from_env-to_env_json_example =
    load_configs_from_env-to_env_json fractions five_percent read_float loads dumps block spec refl
      refl refl
