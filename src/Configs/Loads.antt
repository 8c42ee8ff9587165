-- ===== src/Configs/Loads.antt =====
-- The tunables of a validated `mrc:` block reach the agents (scenario.py and agent.py).
use mathlib.Core.Option.{some-injective}
use srv6_ai_fabric.Prelude.{
  lt→ltb, zero, suc, ◌≡◌, ◌∙◌, Option, String, String_eq, [], none, some, false, refl, arith, inl,
  inr, Bool-cases, if◌then◌else◌, ok, ℕ, ◌<◌, >>=-eq-ok, ok-injective, subst, sym, ap,
}
use srv6_ai_fabric.Scenario.{
  MrcSpec, mrc_defaults, positive_int, mrc_keys, ratio_field, validate_mrc,
}
use srv6_ai_fabric.Scenario.Documents.{
  Fields, Yaml, get, float, int, null, bool, mapping, require_keys, seq, str,
}
use srv6_ai_fabric.Configs.{
  any_of, ev_keys, int_field, env_payload, AgentConfig, EvConfig, agent_fields, check_positive,
  default_to, ev_fields, float_field, configs_of, load_configs_from_env, make_agent_config,
  to_env_json,
}
use srv6_ai_fabric.Prelude.Int.{pos, negsuc}
use srv6_ai_fabric.Prelude.Floats.{Floats}
use srv6_ai_fabric.Configs.Payloads.{any_of-false, get-env_payload, known-env_payload}

module _ (fl : Floats) (loss_threshold_default : fl.Float) where
  -- The configurations that a block stands for: its tunables, and the defaults for the others.
  abbrev pub agent_of : MrcSpec fl.Float → AgentConfig fl.Float
  agent_of m = record {
    probe_interval_ms = default_to (int (pos 200)) (int_field m.probe_interval_ms);
    probe_timeout_ms = default_to (int (pos 100)) (int_field m.probe_timeout_ms);
    loss_window_ms = default_to (int (pos 200)) (int_field m.loss_window_ms);
    max_window_skew_ms = default_to (int (pos 500)) (int_field m.max_window_skew_ms);
  }

  abbrev pub ev_of : MrcSpec fl.Float → EvConfig fl.Float
  ev_of m = record {
    probe_fail_threshold = default_to (int (pos 3)) (int_field m.probe_fail_threshold);
    probe_recover_threshold = default_to (int (pos 5)) (int_field m.probe_recover_threshold);
    loss_threshold = default_to (float loss_threshold_default) (float_field m.loss_threshold);
    loss_demote_consecutive = default_to (int (pos 2)) (int_field m.loss_demote_consecutive);
    min_active_planes = default_to null (int_field m.min_active_planes);
    rtt_ring_size = default_to (int (pos 64)) (int_field m.rtt_ring_size);
  }

  -- What the table makes of a configuration that is None: its own defaults.
  abbrev pub or_defaults : Option (EvConfig fl.Float) → EvConfig fl.Float
  or_defaults none = ev_of mrc_defaults
  or_defaults (some c) = c

  agent_fields-env_payload :
      (loads : String → Option (Yaml fl.Float)) (m : MrcSpec fl.Float)
      → agent_fields fl loss_threshold_default loads (env_payload m) ≡ agent_of m
  agent_fields-env_payload loads m =
      rw
        (
          get-env_payload m "probe_interval_ms" {o = int_field m.probe_interval_ms} refl,
          get-env_payload m "probe_timeout_ms" {o = int_field m.probe_timeout_ms} refl,
          get-env_payload m "loss_window_ms" {o = int_field m.loss_window_ms} refl,
          get-env_payload m "max_window_skew_ms" {o = int_field m.max_window_skew_ms} refl,
        )
        refl

  ev_fields-env_payload :
      (loads : String → Option (Yaml fl.Float)) (m : MrcSpec fl.Float)
      → ev_fields fl loss_threshold_default loads (env_payload m) ≡ ev_of m
  ev_fields-env_payload loads m =
      rw
        (
          get-env_payload m "probe_fail_threshold" {o = int_field m.probe_fail_threshold} refl,
          get-env_payload m "probe_recover_threshold" {o = int_field m.probe_recover_threshold}
              refl,
          get-env_payload m "loss_threshold" {o = float_field m.loss_threshold} refl,
          get-env_payload m "loss_demote_consecutive" {o = int_field m.loss_demote_consecutive}
              refl,
          get-env_payload m "min_active_planes" {o = int_field m.min_active_planes} refl,
          get-env_payload m "rtt_ring_size" {o = int_field m.rtt_ring_size} refl,
        )
        refl

  -- Without a tunable of its own, the block stands for the table's defaults.
  ev_fields-defaults :
      (loads : String → Option (Yaml fl.Float)) (d : Fields fl.Float)
      → any_of ev_keys d ≡ false
      → ev_fields fl loss_threshold_default loads d ≡ ev_of mrc_defaults
  ev_fields-defaults loads d h =
      let (a, b, c, e, f, g) = any_of-false d h in rw (a, b, c, e, f, g) refl

  abbrev Checks : (String → Option (Yaml fl.Float)) → ℕ → Option ℕ → Type 0
  Checks loads n o =
      check_positive fl loss_threshold_default loads (default_to (int (pos n)) (int_field o))
      ≡ ok tt

  positive_int-pos :
      (read_float : String → Option fl.Float) (o : Option (Yaml fl.Float)) (k : ℕ)
      → positive_int fl read_float o ≡ ok (some k)
      → 0 < k
  unfolding positive_int
  positive_int-pos read_float none k h = cc
  positive_int-pos read_float (some (int (pos zero))) k h = cc
  positive_int-pos read_float (some (int (pos (suc n)))) k h =
      omega (arith, some-injective (suc n) k (ok-injective _ _ h))
  positive_int-pos read_float (some (int (negsuc n))) k h = cc
  positive_int-pos read_float (some null) k h = cc
  positive_int-pos read_float (some (bool b)) k h = cc
  positive_int-pos read_float (some (float x)) k h = cc
  positive_int-pos read_float (some (str s)) k h = cc
  positive_int-pos read_float (some (seq vs)) k h = cc
  positive_int-pos read_float (some (mapping d)) k h = cc

  positive_int-Checks :
      (read_float : String → Option fl.Float) (loads : String → Option (Yaml fl.Float)) (n : ℕ)
      (o : Option (Yaml fl.Float)) (m : Option ℕ)
      → 0 < n
      → positive_int fl read_float o ≡ ok m
      → Checks loads n m
  unfolding check_positive
  positive_int-Checks read_float loads n o none pos_n h = rw (lt→ltb 0 n pos_n) refl
  positive_int-Checks read_float loads n o (some k) pos_n h =
      rw (lt→ltb 0 k (positive_int-pos read_float o k h)) refl

  record IsChecked (loads : String → Option (Yaml fl.Float)) (m : MrcSpec fl.Float) : Type 0 where
    interval : Checks loads 200 m.probe_interval_ms
    timeout : Checks loads 100 m.probe_timeout_ms
    window : Checks loads 200 m.loss_window_ms
    skew_checked : Checks loads 500 m.max_window_skew_ms

  validate_mrc-IsChecked :
      (read_float : String → Option fl.Float) (loads : String → Option (Yaml fl.Float))
      (v : Yaml fl.Float) {m : MrcSpec fl.Float}
      → validate_mrc fl read_float v ≡ ok m
      → IsChecked loads m
  unfolding validate_mrc check_positive
  validate_mrc-IsChecked read_float loads null h =
      subst (IsChecked loads) (ok-injective _ _ h)
        (record { interval = refl; timeout = refl; window = refl; skew_checked = refl })
  validate_mrc-IsChecked read_float loads (mapping d) h =
      let (_, _, r₀) = >>=-eq-ok (require_keys d [] mrc_keys) _ h in
      let (interval, e₁, r₁) =
        >>=-eq-ok (positive_int fl read_float (get "probe_interval_ms" d)) _ r₀ in
      let (timeout, e₂, r₂) =
        >>=-eq-ok (positive_int fl read_float (get "probe_timeout_ms" d)) _ r₁ in
      let (window, e₃, r₃) = >>=-eq-ok (positive_int fl read_float (get "loss_window_ms" d)) _ r₂ in
      let (skew, e₄, r₄) =
        >>=-eq-ok (positive_int fl read_float (get "max_window_skew_ms" d)) _ r₃ in
      let (_, _, r₅) = >>=-eq-ok (positive_int fl read_float (get "probe_fail_threshold" d)) _ r₄ in
      let (_, _, r₆) =
        >>=-eq-ok (positive_int fl read_float (get "probe_recover_threshold" d)) _ r₅ in
      let (_, _, r₇) =
        >>=-eq-ok (positive_int fl read_float (get "loss_demote_consecutive" d)) _ r₆ in
      let (_, _, r₈) = >>=-eq-ok (positive_int fl read_float (get "min_active_planes" d)) _ r₇ in
      let (_, _, r₉) = >>=-eq-ok (positive_int fl read_float (get "rtt_ring_size" d)) _ r₈ in
      let (_, _, q) = >>=-eq-ok (ratio_field fl read_float (get "loss_threshold" d)) _ r₉ in
      subst (IsChecked loads) (ok-injective _ _ q) (record {
        interval = positive_int-Checks read_float loads 200 _ interval (omega arith) e₁;
        timeout = positive_int-Checks read_float loads 100 _ timeout (omega arith) e₂;
        window = positive_int-Checks read_float loads 200 _ window (omega arith) e₃;
        skew_checked = positive_int-Checks read_float loads 500 _ skew (omega arith) e₄;
      })
  validate_mrc-IsChecked read_float loads (bool b) h = cc
  validate_mrc-IsChecked read_float loads (int n) h = cc
  validate_mrc-IsChecked read_float loads (float x) h = cc
  validate_mrc-IsChecked read_float loads (str s) h = cc
  validate_mrc-IsChecked read_float loads (seq vs) h = cc

  make_agent_config-agent_of :
      (loads : String → Option (Yaml fl.Float)) (m : MrcSpec fl.Float)
      → IsChecked loads m
      → make_agent_config fl loss_threshold_default loads (agent_of m) ≡ ok (agent_of m)
  unfolding make_agent_config
  make_agent_config-agent_of loads m c = rw (c.interval, c.timeout, c.window, c.skew_checked) refl

  -- When JSON reads back the object that it wrote for a validated block, and writes no empty text, the
  -- agents' configurations load without an error, and each has the tunables that the block sets and
  -- the default of every other.
  pub load_configs_from_env-to_env_json :
      (read_float : String → Option fl.Float) (loads : String → Option (Yaml fl.Float))
      (dumps : Fields fl.Float → String) (v : Yaml fl.Float) (m : MrcSpec fl.Float)
      → validate_mrc fl read_float v ≡ ok m
      → loads (to_env_json dumps m) ≡ some (mapping (env_payload m))
      → String_eq.beq (to_env_json dumps m) "" ≡ false
      → (ev : Option (EvConfig fl.Float)) × (load_configs_from_env fl loss_threshold_default loads
            (some (to_env_json dumps m))
          ≡ ok (agent_of m, ev))
        × (or_defaults ev ≡ ev_of m)
  unfolding load_configs_from_env configs_of
  load_configs_from_env-to_env_json read_float loads dumps v m h back text =
      let made =
        ap (make_agent_config fl loss_threshold_default loads) (agent_fields-env_payload loads m)
        ∙ make_agent_config-agent_of loads m (validate_mrc-IsChecked read_float loads v h) in
      let ev =
        if any_of ev_keys (env_payload m)
        then some (ev_fields fl loss_threshold_default loads (env_payload m))
        else none in
      (
        ev,
        rw (text, back, known-env_payload m, made) refl,
        elim (Bool-cases (any_of ev_keys (env_payload m))) [
          | inl some_set ↦ rw some_set (ev_fields-env_payload loads m)
          | inr none_set ↦ rw none_set (
              sym (ev_fields-defaults loads (env_payload m) none_set)
              ∙ ev_fields-env_payload loads m)
        ],
      )
