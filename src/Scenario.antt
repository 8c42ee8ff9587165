-- ===== src/Scenario.antt =====
-- srv6_fabric/mrc/scenario.py: the validator of a scenario. A document is what PyYAML makes of it, with
-- texts as keys. Each ScenarioError is the ValueError that it is, without its path and message.
pub mod Documents
pub mod Texts
pub mod Checked
pub mod Whole
use srv6_ai_fabric.Prelude.{
  ◌>>◌, ℕ_eq, String_eq, ℕ, List, Bool, Option, Result, String, [], false, guard, if◌then◌else◌,
  none, not, ok, raise, require, some, suc, true, value_error, ◌&&◌, ◌>>=◌, ◌∷◌, type_error, zero,
  ◌+◌,
}
use srv6_ai_fabric.Prelude.Int.{ℤ, pos, negsuc}
use srv6_ai_fabric.Policy.{
  Spec, SprayPolicy, health_aware_spec, named, other, policy_from_spec, weighted_spec,
}
use srv6_ai_fabric.Topo.Addresses.{Fabric}
use srv6_ai_fabric.Netem.{digits}
use srv6_ai_fabric.Scenario.Texts.{duration_text}
use srv6_ai_fabric.Prelude.Floats.{Floats}
use srv6_ai_fabric.Scenario.Documents.{
  Yaml, Items, Fields, FlowPair, FaultSpec, get, require_keys, item, require_str, parse_rate,
  resolve_pairs, validate_faults, null, bool, int, float, str, seq, mapping, nil, cons, end, entry,
}

-- The tunables of an `mrc:` block.
pub record MrcSpec (F : Type 0) : Type 0 where
  pub probe_interval_ms : Option ℕ
  pub probe_timeout_ms : Option ℕ
  pub loss_window_ms : Option ℕ
  pub max_window_skew_ms : Option ℕ
  pub probe_fail_threshold : Option ℕ
  pub probe_recover_threshold : Option ℕ
  pub loss_demote_consecutive : Option ℕ
  pub min_active_planes : Option ℕ
  pub rtt_ring_size : Option ℕ
  pub loss_threshold : Option F

abbrev pub mrc_defaults : {F : Type 0} → MrcSpec F
mrc_defaults = record {
  probe_interval_ms = none;
  probe_timeout_ms = none;
  loss_window_ms = none;
  max_window_skew_ms = none;
  probe_fail_threshold = none;
  probe_recover_threshold = none;
  loss_demote_consecutive = none;
  min_active_planes = none;
  rtt_ring_size = none;
  loss_threshold = none;
}

abbrev pub mrc_keys : List String
mrc_keys =
    "probe_interval_ms" ∷ "probe_timeout_ms" ∷ "loss_window_ms" ∷ "max_window_skew_ms"
    ∷ "probe_fail_threshold" ∷ "probe_recover_threshold" ∷ "loss_demote_consecutive"
    ∷ "min_active_planes" ∷ "rtt_ring_size" ∷ "loss_threshold" ∷ []

pub record FlowSpec (F : Type 0) : Type 0 where
  pub pairs : List FlowPair
  pub policy_spec : Yaml F
  pub rate_pps : ℕ
  pub duration_s : F

pub record Scenario (F : Type 0) : Type 0 where
  pub name : String
  pub description : String
  pub flows : List (FlowSpec F)
  pub faults : List FaultSpec
  pub report_out : Option String
  pub mrc : Option (MrcSpec F)

-- `read_float` is Python's `float` on a text; `none` is its ValueError.
module _ (fl : Floats) (read_float : String → Option fl.Float) where
  abbrev pub of_ℤ : ℤ → fl.Float
  of_ℤ (pos n) = fl.of_ℕ n
  of_ℤ (negsuc n) = fl.sub fl.float_zero (fl.of_ℕ (n + 1))

  -- `float(x)`
  unfoldable pub float_of : Yaml fl.Float → Result fl.Float
  float_of (float x) = ok x
  float_of (int n) = ok (of_ℤ n)
  float_of (bool true) = ok fl.float_one
  float_of (bool false) = ok fl.float_zero
  float_of (str s) = require (read_float s) value_error
  float_of _ = raise type_error

  unfoldable pub floats_of : Items fl.Float → Result (List fl.Float)
  floats_of nil = ok []
  floats_of (cons v vs) = do x ← float_of v; xs ← floats_of vs; ok (x ∷ xs)

  unfoldable pub chars_of : String → Result (List fl.Float)
  chars_of String.[] = ok []
  chars_of (String.◌∷◌ c s) = do
    x ← require (read_float (String.◌∷◌ c String.[])) value_error
    xs ← chars_of s
    ok (x ∷ xs)

  unfoldable pub keys_of : Fields fl.Float → Result (List fl.Float)
  keys_of end = ok []
  keys_of (entry k v d) = do x ← require (read_float k) value_error; xs ← keys_of d; ok (x ∷ xs)

  -- `tuple(float(x) for x in value)`
  unfoldable pub weights_of : Yaml fl.Float → Result (List fl.Float)
  weights_of (seq vs) = floats_of vs
  weights_of (str s) = chars_of s
  weights_of (mapping d) = keys_of d
  weights_of _ = raise type_error

  -- The spec that `policy_from_spec` walks through.
  unfoldable pub spec_of : Yaml fl.Float → Result (Spec fl)
  spec_of (str name) = ok (named name)
  spec_of (mapping (entry kind value end)) =
      let inner = spec_of value in
      if String_eq.beq kind "weighted"
      then weights_of value >>= (λ weights. ok (weighted_spec weights))
      else if String_eq.beq kind "health_aware"
      then inner >>= (λ spec. ok (health_aware_spec spec))
      else ok other
  spec_of _ = ok other

  abbrev pub policy_of : ℕ → Yaml fl.Float → Result (SprayPolicy fl)
  policy_of num_planes v = spec_of v >>= policy_from_spec fl num_planes

  unfoldable pub positive_float : fl.Float → Result fl.Float
  positive_float x = guard (fl.lt fl.float_zero x) value_error >> ok x

  -- The number of a duration text, in seconds.
  unfoldable pub seconds_of : Option (String × Bool) → Result fl.Float
  seconds_of none = raise value_error
  seconds_of (some (digits, milli)) =
      require (read_float digits) value_error
      >>= (λ x. ok (if milli then fl.div x (fl.of_ℕ 1000) else x))

  unfoldable pub parse_duration : Yaml fl.Float → Result fl.Float
  parse_duration (str s) = seconds_of (duration_text s)
  parse_duration (float x) = positive_float x
  parse_duration (int n) = positive_float (of_ℤ n)
  parse_duration (bool true) = ok fl.float_one
  parse_duration _ = raise value_error

  unfoldable pub validate_flow : Fabric → Yaml fl.Float → Result (FlowSpec fl.Float)
  validate_flow f (mapping d) = do
    require_keys d ("pairs" ∷ "policy" ∷ "rate" ∷ "duration" ∷ []) []
    pairs_raw ← item "pairs" d
    pairs ← resolve_pairs f pairs_raw
    policy_raw ← item "policy" d
    policy ← policy_of f.num_planes policy_raw
    rate_raw ← item "rate" d
    rate ← parse_rate rate_raw
    duration_raw ← item "duration" d
    duration ← parse_duration duration_raw
    ok (record { pairs = pairs; policy_spec = policy_raw; rate_pps = rate; duration_s = duration })
  validate_flow f _ = raise value_error

  unfoldable pub validate_flows : Fabric → Items fl.Float → Result (List (FlowSpec fl.Float))
  validate_flows f nil = ok []
  validate_flows f (cons v vs) = do
    flow ← validate_flow f v
    rest ← validate_flows f vs
    ok (flow ∷ rest)

  -- A field of `_MRC_POSITIVE_INT_FIELDS`
  unfoldable pub positive_int : Option (Yaml fl.Float) → Result (Option ℕ)
  positive_int none = ok none
  positive_int (some (int (pos (suc n)))) = ok (some (suc n))
  positive_int (some _) = raise value_error

  unfoldable pub unit_float : fl.Float → Result (Option fl.Float)
  unit_float x = guard (fl.le fl.float_zero x && fl.le x fl.float_one) value_error >> ok (some x)

  -- A field of `_MRC_RATIO_FIELDS`
  unfoldable pub ratio_field : Option (Yaml fl.Float) → Result (Option fl.Float)
  ratio_field none = ok none
  ratio_field (some (int n)) = unit_float (of_ℤ n)
  ratio_field (some (float x)) = unit_float x
  ratio_field (some _) = raise value_error

  unfoldable pub validate_mrc : Yaml fl.Float → Result (MrcSpec fl.Float)
  validate_mrc null = ok mrc_defaults
  validate_mrc (mapping d) = do
    require_keys d [] mrc_keys
    interval ← positive_int (get "probe_interval_ms" d)
    timeout ← positive_int (get "probe_timeout_ms" d)
    window ← positive_int (get "loss_window_ms" d)
    skew ← positive_int (get "max_window_skew_ms" d)
    fails ← positive_int (get "probe_fail_threshold" d)
    recovers ← positive_int (get "probe_recover_threshold" d)
    demotes ← positive_int (get "loss_demote_consecutive" d)
    active ← positive_int (get "min_active_planes" d)
    ring ← positive_int (get "rtt_ring_size" d)
    threshold ← ratio_field (get "loss_threshold" d)
    ok (record {
      probe_interval_ms = interval;
      probe_timeout_ms = timeout;
      loss_window_ms = window;
      max_window_skew_ms = skew;
      probe_fail_threshold = fails;
      probe_recover_threshold = recovers;
      loss_demote_consecutive = demotes;
      min_active_planes = active;
      rtt_ring_size = ring;
      loss_threshold = threshold;
    })
  validate_mrc _ = raise value_error

  unfoldable pub optional_mrc : Option (Yaml fl.Float) → Result (Option (MrcSpec fl.Float))
  optional_mrc none = ok none
  optional_mrc (some v) = do mrc ← validate_mrc v; ok (some mrc)

  unfoldable pub out_of : Option (Yaml fl.Float) → Result (Option String)
  out_of none = ok none
  out_of (some null) = ok none
  out_of (some (str s)) = ok (some s)
  out_of (some _) = raise value_error

  unfoldable pub validate_report : Option (Yaml fl.Float) → Result (Option String)
  validate_report none = ok none
  validate_report (some null) = ok none
  validate_report (some (mapping d)) = require_keys d [] ("out" ∷ []) >> out_of (get "out" d)
  validate_report (some _) = raise value_error

  unfoldable pub opt_str : Option (Yaml fl.Float) → Result String
  opt_str none = ok ""
  opt_str (some (str s)) = ok s
  opt_str (some _) = raise value_error

  unfoldable pub flows_of : Fabric → Yaml fl.Float → Result (List (FlowSpec fl.Float))
  flows_of f (seq (cons v vs)) = validate_flows f (cons v vs)
  flows_of f _ = raise value_error

  -- `not v`
  unfoldable pub falsy : Yaml fl.Float → Bool
  falsy null = true
  falsy (bool b) = not b
  falsy (int (pos zero)) = true
  falsy (int _) = false
  falsy (float x) = not (fl.lt fl.float_zero x) && not (fl.lt x fl.float_zero)
  falsy (str s) = String_eq.beq s ""
  falsy (seq nil) = true
  falsy (seq _) = false
  falsy (mapping end) = true
  falsy (mapping _) = false

  unfoldable pub list_of_faults : Fabric → Yaml fl.Float → Result (List FaultSpec)
  list_of_faults f (seq vs) = validate_faults f vs
  list_of_faults f _ = raise value_error

  unfoldable pub faults_of : Fabric → Option (Yaml fl.Float) → Result (List FaultSpec)
  faults_of f none = ok []
  faults_of f (some v) = if falsy v then ok [] else list_of_faults f v

  unfoldable pub validate : Fabric → Yaml fl.Float → Result (Scenario fl.Float)
  validate f (mapping d) = do
    require_keys d ("name" ∷ "flows" ∷ []) ("description" ∷ "faults" ∷ "report" ∷ "mrc" ∷ [])
    name ← require_str "name" d
    description ← opt_str (get "description" d)
    flows_raw ← item "flows" d
    flows ← flows_of f flows_raw
    faults ← faults_of f (get "faults" d)
    report_out ← validate_report (get "report" d)
    mrc ← optional_mrc (get "mrc" d)
    ok (record {
      name = name;
      description = description;
      flows = flows;
      faults = faults;
      report_out = report_out;
      mrc = mrc;
    })
  validate f _ = raise value_error
