-- ===== src/Configs.antt =====
-- The tunables of a scenario on their way to the agents: srv6_fabric/mrc/scenario.py, `to_env_json`,
-- and srv6_fabric/mrc/agent.py, `load_configs_from_env`. The variable's value is an argument. A field
-- of a configuration is what the document has, as the source checks no types.
pub mod Payloads
pub mod Loads
use srv6_ai_fabric.Prelude.{
  ◌>>=◌, ◌>>◌, ◌∷◌, ◌++◌, List, Option, Result, String, String_eq, [], none, some, ok, raise, guard,
  require, ltb, not, type_error, value_error, true, false, Bool, ℕ, if◌then◌else◌,
}
use srv6_ai_fabric.Prelude.Int.{negsuc, pos}
use srv6_ai_fabric.Prelude.Floats.{Floats}
use srv6_ai_fabric.Scenario.{MrcSpec}
use srv6_ai_fabric.Scenario.Documents.{
  Fields, Yaml, bool, end, entry, float, get, int, mapping, null, only,
}
use srv6_ai_fabric.Prelude.Dict.{keys}

pub record AgentConfig (F : Type 0) : Type 0 where
  pub probe_interval_ms : Yaml F
  pub probe_timeout_ms : Yaml F
  pub loss_window_ms : Yaml F
  pub max_window_skew_ms : Yaml F

-- What the keywords make of EVStateConfig.
pub record EvConfig (F : Type 0) : Type 0 where
  pub probe_fail_threshold : Yaml F
  pub probe_recover_threshold : Yaml F
  pub loss_threshold : Yaml F
  pub loss_demote_consecutive : Yaml F
  pub min_active_planes : Yaml F
  pub rtt_ring_size : Yaml F

abbrev pub agent_keys : List String
agent_keys = "probe_interval_ms" ∷ "probe_timeout_ms" ∷ "loss_window_ms" ∷ "max_window_skew_ms" ∷ []

abbrev pub ev_keys : List String
ev_keys =
    "probe_fail_threshold" ∷ "probe_recover_threshold" ∷ "loss_threshold"
    ∷ "loss_demote_consecutive" ∷ "min_active_planes" ∷ "rtt_ring_size" ∷ []

module _ {F : Type 0} where
  -- A field that is set is emitted.
  unfoldable pub emit_set : List (String × Option (Yaml F)) → Fields F
  emit_set [] = end
  emit_set ((key, none) ∷ fs) = emit_set fs
  emit_set ((key, some v) ∷ fs) = entry key v (emit_set fs)

  abbrev pub int_field : Option ℕ → Option (Yaml F)
  int_field none = none
  int_field (some n) = some (int (pos n))

  abbrev pub float_field : Option F → Option (Yaml F)
  float_field none = none
  float_field (some x) = some (float x)

  -- In the order of `sort_keys`.
  abbrev pub fields_of : MrcSpec F → List (String × Option (Yaml F))
  fields_of m =
      ("loss_demote_consecutive", int_field m.loss_demote_consecutive)
      ∷ ("loss_threshold", float_field m.loss_threshold)
      ∷ ("loss_window_ms", int_field m.loss_window_ms)
      ∷ ("max_window_skew_ms", int_field m.max_window_skew_ms)
      ∷ ("min_active_planes", int_field m.min_active_planes)
      ∷ ("probe_fail_threshold", int_field m.probe_fail_threshold)
      ∷ ("probe_interval_ms", int_field m.probe_interval_ms)
      ∷ ("probe_recover_threshold", int_field m.probe_recover_threshold)
      ∷ ("probe_timeout_ms", int_field m.probe_timeout_ms)
      ∷ ("rtt_ring_size", int_field m.rtt_ring_size)
      ∷ []

  -- The dict that `to_env_json` dumps.
  abbrev pub env_payload : MrcSpec F → Fields F
  env_payload m = emit_set (fields_of m)

  -- `dumps` is `json.dumps`.
  abbrev pub to_env_json : (Fields F → String) → MrcSpec F → String
  to_env_json dumps m = dumps (env_payload m)

  -- A keyword's value, or the dataclass's default.
  abbrev pub default_to : Yaml F → Option (Yaml F) → Yaml F
  default_to v none = v
  default_to v (some w) = w

  unfoldable pub any_of : List String → Fields F → Bool
  any_of [] d = false
  any_of (key ∷ keys) d = elim (get key d) [ none ↦ any_of keys d | some _ ↦ true ]

-- `loss_threshold_default` is the default 0.05; `loads` is `json.loads`, and `none` its error.
module _ (fl : Floats) (loss_threshold_default : fl.Float)
    (loads : String → Option (Yaml fl.Float)) where
  -- `if v <= 0: raise`
  unfoldable pub check_positive : Yaml fl.Float → Result (Unit {0})
  check_positive (int (pos n)) = guard (ltb 0 n) value_error
  check_positive (int (negsuc n)) = raise value_error
  check_positive (bool b) = guard b value_error
  check_positive (float x) = guard (not (fl.le x fl.float_zero)) value_error
  check_positive _ = raise type_error

  -- `__post_init__`
  unfoldable pub make_agent_config : AgentConfig fl.Float → Result (AgentConfig fl.Float)
  make_agent_config c = do
    check_positive c.probe_interval_ms
    check_positive c.probe_timeout_ms
    check_positive c.loss_window_ms
    check_positive c.max_window_skew_ms
    ok c

  abbrev pub agent_fields : Fields fl.Float → AgentConfig fl.Float
  agent_fields d = record {
    probe_interval_ms = default_to (int (pos 200)) (get "probe_interval_ms" d);
    probe_timeout_ms = default_to (int (pos 100)) (get "probe_timeout_ms" d);
    loss_window_ms = default_to (int (pos 200)) (get "loss_window_ms" d);
    max_window_skew_ms = default_to (int (pos 500)) (get "max_window_skew_ms" d);
  }

  abbrev pub ev_fields : Fields fl.Float → EvConfig fl.Float
  ev_fields d = record {
    probe_fail_threshold = default_to (int (pos 3)) (get "probe_fail_threshold" d);
    probe_recover_threshold = default_to (int (pos 5)) (get "probe_recover_threshold" d);
    loss_threshold = default_to (float loss_threshold_default) (get "loss_threshold" d);
    loss_demote_consecutive = default_to (int (pos 2)) (get "loss_demote_consecutive" d);
    min_active_planes = default_to null (get "min_active_planes" d);
    rtt_ring_size = default_to (int (pos 64)) (get "rtt_ring_size" d);
  }

  unfoldable pub configs_of :
      Yaml fl.Float → Result (AgentConfig fl.Float × Option (EvConfig fl.Float))
  configs_of (mapping d) = do
    guard (only (agent_keys ++ ev_keys) d) value_error
    agent ← make_agent_config (agent_fields d)
    ok (agent, if any_of ev_keys d then some (ev_fields d) else none)
  configs_of _ = raise value_error

  -- `none` is a variable that is not set.
  unfoldable pub load_configs_from_env :
      Option String → Result (AgentConfig fl.Float × Option (EvConfig fl.Float))
  load_configs_from_env none = ok (agent_fields end, none)
  load_configs_from_env (some s) =
      if String_eq.beq s ""
      then ok (agent_fields end, none)
      else require (loads s) value_error >>= configs_of
