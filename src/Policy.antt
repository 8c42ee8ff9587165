-- ===== src/Policy.antt =====
-- srv6_fabric/policy.py: which plane the next packet of a flow takes. NUM_PLANES comes from a YAML
-- file and `key_bytes` is Python's formatting (see Topo), so both are arguments. A policy that is
-- built holds what the source's object holds, with the set `down` as it is at the time of the pick;
-- the EV table, which the source shares with other threads, is an argument of the pick.
pub mod Draws
pub mod Walks
pub mod Avoids
pub mod Specs
use srv6_ai_fabric.Prelude.{
  ◌∷◌, ◌==◌, ◌>>=◌, ◌>>◌, ◌+◌, ◌*◌, ◌-◌, ◌%◌, ◌^◌, ◌||◌, Bool, List, Result, String, [], false,
  guard, if◌then◌else◌, leb, length, not, ok, raise, require, runtime_error, suc, value_error, zero,
  ℕ, String_eq,
}
use srv6_ai_fabric.Prelude.Dict.{lookup}
use srv6_ai_fabric.Prelude.Floats.{Floats}
use srv6_ai_fabric.EvState.{EvStateTable}
use srv6_ai_fabric.Topo.{FlowKey, hash5}
use mathlib.Core.List.{foldl}

-- `x in down`
unfoldable pub mem : ℕ → List ℕ → Bool
mem x [] = false
mem x (y ∷ ys) = (y == x) || mem x ys

-- `tenant in tenants`
unfoldable pub known_tenant : String → List String → Bool
known_tenant tenant [] = false
known_tenant tenant (t ∷ ts) = String_eq.beq t tenant || known_tenant tenant ts

-- `len(down)`: an element counts once.
unfoldable pub set_size : List ℕ → ℕ
set_size [] = 0
set_size (x ∷ xs) = let n = set_size xs in if mem x xs then n else n + 1

-- The loop of `HealthAware.pick` from `step` on, with `k` steps left.
unfoldable pub walk_forward : ℕ → List ℕ → ℕ → ℕ → ℕ → ℕ
walk_forward num_planes down choice step zero = choice
walk_forward num_planes down choice step (suc k) =
    let rest = walk_forward num_planes down choice (suc step) k in
    let cand = (choice + step) % num_planes in if mem cand down then rest else cand

-- `HealthAware.pick` on the choice of the inner policy.
unfoldable pub avoid_down : ℕ → List ℕ → ℕ → ℕ
avoid_down num_planes down choice =
    if not (mem choice down)
    then choice
    else if leb num_planes (set_size down)
    then choice
    else walk_forward num_planes down choice 1 (num_planes - 1)

abbrev pub golden_ratio_64 : ℕ
golden_ratio_64 = 0x9E3779B97F4A7C15

-- `x` of `_weighted_pick`
abbrev pub draw : ℕ → ℕ → ℕ
draw seq hash = (hash + seq * golden_ratio_64) % 2 ^ 64

module _ (fl : Floats) where
  open fl use {Float, float_zero, float_one, of_ℕ, add, div, lt, le}

  -- The loop of `_build_cdf`: the sums of the shares.
  unfoldable pub cumulate : Float → Float → List Float → List Float
  cumulate total cum [] = []
  cumulate total cum (w ∷ ws) = add cum (div w total) ∷ cumulate total (add cum (div w total)) ws

  -- `cdf[-1] = 1.0`
  unfoldable pub force_last : List Float → List Float
  force_last [] = []
  force_last (c ∷ []) = float_one ∷ []
  force_last (c ∷ (d ∷ cs)) = c ∷ force_last (d ∷ cs)

  abbrev pub sum : List Float → Float
  sum = foldl add float_zero

  unfoldable pub build_cdf : List Float → List Float
  build_cdf weights = force_last (cumulate (sum weights) float_zero weights)

  -- The search of `_weighted_pick` from the index `p` on; `last` is `len(cdf) - 1`.
  unfoldable pub first_above : Float → ℕ → ℕ → List Float → ℕ
  first_above u last p [] = last
  first_above u last p (c ∷ cs) =
      let rest = first_above u last (suc p) cs in if lt u c then p else rest

  unfoldable pub weighted_pick : ℕ → ℕ → List Float → ℕ
  weighted_pick seq hash cdf =
      first_above (div (of_ℕ (draw seq hash)) (of_ℕ (2 ^ 64))) (length cdf - 1) 0 cdf

  unfoldable pub any_negative : List Float → Bool
  any_negative [] = false
  any_negative (w ∷ ws) = lt w float_zero || any_negative ws

  -- `Weighted.__post_init__`: the weights are checked, and the thresholds are computed.
  unfoldable pub make_weighted : ℕ → List Float → Result (List Float)
  make_weighted num_planes weights = do
    guard (length weights == num_planes) value_error
    guard (not (any_negative weights)) value_error
    guard (not (le (sum weights) float_zero)) value_error
    ok (build_cdf weights)

  -- The policies as they are built: `weighted` with its thresholds, `health_aware_mrc` with its
  -- tenant, and the factory that is not bound yet.
  pub data SprayPolicy : Type 0 where
    round_robin hash5tuple : SprayPolicy
    weighted : List Float → SprayPolicy
    health_aware : SprayPolicy → List ℕ → SprayPolicy
    health_aware_mrc : String → SprayPolicy
    health_aware_mrc_factory : SprayPolicy

  -- `table.weights(tenant)`
  unfoldable pub read_weights : EvStateTable Float → String → Result (List Float)
  read_weights table tenant = do
    s ← require (lookup tenant table.by_tenant) value_error
    ok s.weights

  -- `HealthAwareMrc.pick` on the weights that it reads.
  unfoldable pub pick_by_weights : ℕ → List Float → ℕ → ℕ → ℕ
  pick_by_weights num_planes weights seq hash =
      if le (sum weights) float_zero
      then seq % num_planes
      else weighted_pick seq hash (build_cdf weights)

  unfoldable pub pick :
      ℕ → (FlowKey → List ℕ) → EvStateTable Float → SprayPolicy → ℕ → FlowKey → Result ℕ
  pick n key_bytes table round_robin seq flow = ok (seq % n)
  pick n key_bytes table hash5tuple seq flow = ok (hash5 key_bytes flow % n)
  pick n key_bytes table (weighted cdf) seq flow = ok (weighted_pick seq (hash5 key_bytes flow) cdf)
  pick n key_bytes table (health_aware inner down) seq flow = do
    choice ← pick n key_bytes table inner seq flow
    ok (avoid_down n down choice)
  pick n key_bytes table (health_aware_mrc tenant) seq flow = do
    weights ← read_weights table tenant
    ok (pick_by_weights n weights seq (hash5 key_bytes flow))
  pick n key_bytes table health_aware_mrc_factory seq flow = raise runtime_error

  -- `HealthAwareMrc.__post_init__`, and `HealthAwareMrcFactory.bind`
  unfoldable pub bind : ℕ → EvStateTable Float → String → Result SprayPolicy
  bind num_planes table tenant = do
    guard (known_tenant tenant table.tenants) value_error
    guard (table.num_planes == num_planes) value_error
    ok (health_aware_mrc tenant)

  -- The specs that `policy_from_spec` reads, once YAML is parsed: a name, or a dict with one key.
  -- The floats are already converted; any other value is `other`.
  pub data Spec : Type 0 where
    named : String → Spec
    weighted_spec : List Float → Spec
    health_aware_spec : Spec → Spec
    other : Spec

  unfoldable pub policy_from_spec : ℕ → Spec → Result SprayPolicy
  policy_from_spec n (named name) =
      if String_eq.beq name "round_robin"
      then ok round_robin
      else if String_eq.beq name "hash5tuple"
      then ok hash5tuple
      else if String_eq.beq name "health_aware_mrc"
      then ok health_aware_mrc_factory
      else raise value_error
  policy_from_spec n (weighted_spec weights) = do cdf ← make_weighted n weights; ok (weighted cdf)
  policy_from_spec n (health_aware_spec inner) = do
    policy ← policy_from_spec n inner
    ok (health_aware policy [])
  policy_from_spec n other = raise value_error
