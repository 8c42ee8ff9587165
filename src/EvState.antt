-- ===== src/EvState.antt =====
-- srv6_fabric/mrc/ev_state.py: the EV state machine of each (tenant, plane).
-- A `Tenant` holds what the source keeps for one tenant in the dicts `_planes` and
-- `_weights_cache`, and the calls that `on_transition` has got for it. A method returns the new
-- table. The lock is left out: the source runs each method under it as one step.
pub mod Count
pub mod Machine
pub mod Floor
pub mod Invariant
pub mod Table
pub mod Progress
pub mod Safety
pub mod Weights
use srv6_ai_fabric.Prelude.{
  String_eq, ℕ, suc, ◌+◌, ◌-◌, ◌/◌, min, max, String, Bool, true, false, not, ◌&&◌, Option, none,
  some, List, [], ◌∷◌, ◌++◌, map, ltb, leb, ◌==◌, if◌then◌else◌, length, get_elem?, set, drop,
  replicate, Result, ok, raise, value_error, index_error, ◌>>=◌, ◌>>◌, guard, require,
}
use srv6_ai_fabric.Prelude.Int.{ℤ, pos, negsuc}
use srv6_ai_fabric.Prelude.Dict.{Dict, lookup, insert}
use srv6_ai_fabric.Prelude.Floats.{Floats}
use mathlib.Core.List.{foldl}

pub data EvState : Type 0 where
  unknown good assumed_bad : EvState

abbrev pub same_state : EvState → EvState → Bool
same_state unknown unknown = true
same_state good good = true
same_state assumed_bad assumed_bad = true
same_state _ _ = false

pub record EvStateConfig (F : Type 0) : Type 0 where
  pub probe_fail_threshold : ℕ
  pub probe_recover_threshold : ℕ
  pub loss_threshold : F
  pub loss_demote_consecutive : ℕ
  pub min_active_planes : Option ℕ
  pub rtt_ring_size : ℕ

unfoldable pub resolve_min_active : Option ℕ → ℕ → ℕ
resolve_min_active none num_planes = max 1 (num_planes / 2)
resolve_min_active (some m) num_planes = max 1 (min m num_planes)

pub record PlaneRecord (F : Type 0) : Type 0 where
  pub state : EvState
  pub consecutive_probe_timeouts : ℕ
  pub consecutive_probe_successes : ℕ
  pub rtt_ring_ns : List ℕ
  pub consecutive_loss_demote_windows : ℕ
  pub last_loss_ratio : F
  pub transitions : ℕ
  pub demotes_suppressed_by_floor : ℕ

-- One call of `on_transition`.
pub record Transition : Type 0 where
  pub plane : ℕ
  pub old : EvState
  pub new : EvState

pub record Tenant (F : Type 0) : Type 0 where
  pub planes : List (PlaneRecord F)
  pub weights : List F
  pub calls : List Transition

pub record EvStateTable (F : Type 0) : Type 0 where
  pub tenants : List String
  pub num_planes : ℕ
  pub cfg : EvStateConfig F
  pub min_active : ℕ
  pub by_tenant : Dict String (Tenant F)

-- An outcome of a probe: `success` with its `rtt_ns`, which may be missing, or a timeout.
pub data Outcome : Type 0 where
  success : Option ℤ → Outcome
  timeout : Outcome

-- `deque(maxlen=n).append(x)`: the oldest entries are dropped.
unfoldable pub ring_append : ℕ → List ℕ → ℕ → List ℕ
ring_append maxlen ring x = let grown = ring ++ (x ∷ []) in drop (length grown - maxlen) grown

module _ {F : Type 0} where
  -- Planes other than `plane` that are not demoted; `i` is the counter of `enumerate`.
  unfoldable pub usable_after : ℕ → ℕ → List (PlaneRecord F) → ℕ
  usable_after plane i [] = 0
  usable_after plane i (r ∷ rs) =
      (if not (i == plane) && not (same_state r.state assumed_bad) then 1 else 0)
      + usable_after plane (suc i) rs

  abbrev pub store : ℕ → PlaneRecord F → Tenant F → Tenant F
  store plane rec s = record s { planes = set s.planes plane rec }

module _ (fl : Floats) where
  open fl use {Float, float_zero, float_half, float_one, of_ℕ, ratio, add, div, lt, le}

  abbrev pub state_weight : EvState → Float
  state_weight good = float_one
  state_weight unknown = float_half
  state_weight assumed_bad = float_zero

  -- The new weights of `_rebuild_weights_locked`.
  unfoldable pub rebuild_weights : ℕ → List (PlaneRecord Float) → List Float
  rebuild_weights num_planes planes =
      let raw = map (λ (r : PlaneRecord Float). state_weight r.state) planes in
      let total = foldl add float_zero raw in
      if le total float_zero
      then replicate num_planes (div float_one (of_ℕ num_planes))
      else map (λ x. div x total) raw

  -- `rec` is the plane's record, with what the caller has already written to it.
  unfoldable pub transition_locked :
      ℕ → ℕ → PlaneRecord Float → EvState → Tenant Float → Tenant Float
  transition_locked num_planes plane rec new_state s =
      let moved = record rec {
        state = new_state;
        transitions = rec.transitions + 1;
        consecutive_probe_timeouts =
            if same_state new_state good then 0 else rec.consecutive_probe_timeouts;
        consecutive_probe_successes =
            if same_state new_state assumed_bad then 0 else rec.consecutive_probe_successes;
      } in
      let planes' = set s.planes plane moved in
      if same_state rec.state new_state then store plane rec s else record s {
        planes = planes';
        weights = rebuild_weights num_planes planes';
        calls = s.calls ++ (record { plane = plane; old = rec.state; new = new_state } ∷ []);
      }

  unfoldable pub try_demote_locked : ℕ → ℕ → ℕ → PlaneRecord Float → Tenant Float → Tenant Float
  try_demote_locked num_planes min_active plane rec s =
      if ltb (usable_after plane 0 s.planes) min_active
      then store plane
          (record rec { demotes_suppressed_by_floor = rec.demotes_suppressed_by_floor + 1 }) s
      else transition_locked num_planes plane rec assumed_bad s

  -- The two branches of `record_probe_result`, and the body of `record_loss_window`.
  unfoldable pub probe_success :
      EvStateTable Float → ℕ → ℕ → PlaneRecord Float → Tenant Float → Tenant Float
  probe_success t plane rtt_ns rec s =
      let rec' = record rec {
        consecutive_probe_successes = rec.consecutive_probe_successes + 1;
        consecutive_probe_timeouts = 0;
        rtt_ring_ns = ring_append t.cfg.rtt_ring_size rec.rtt_ring_ns rtt_ns;
      } in
      if not (same_state rec.state good)
        && (leb t.cfg.probe_recover_threshold (rec.consecutive_probe_successes + 1)
            && (rec.consecutive_loss_demote_windows == 0))
      then transition_locked t.num_planes plane rec' good s
      else store plane rec' s

  unfoldable pub probe_timeout :
      EvStateTable Float → ℕ → PlaneRecord Float → Tenant Float → Tenant Float
  probe_timeout t plane rec s =
      let rec' = record rec {
        consecutive_probe_timeouts = rec.consecutive_probe_timeouts + 1;
        consecutive_probe_successes = 0;
      } in
      if not (same_state rec.state assumed_bad)
        && leb t.cfg.probe_fail_threshold (rec.consecutive_probe_timeouts + 1)
      then try_demote_locked t.num_planes t.min_active plane rec' s
      else store plane rec' s

  unfoldable pub loss_window :
      EvStateTable Float → ℕ → Float → PlaneRecord Float → Tenant Float → Tenant Float
  loss_window t plane loss rec s =
      let seen_loss = record rec { last_loss_ratio = loss } in
      let worse = record seen_loss {
        consecutive_loss_demote_windows = rec.consecutive_loss_demote_windows + 1;
      } in
      if lt t.cfg.loss_threshold loss
      then if not (same_state rec.state assumed_bad)
          && leb t.cfg.loss_demote_consecutive (rec.consecutive_loss_demote_windows + 1)
        then try_demote_locked t.num_planes t.min_active plane worse s
        else store plane worse s
      else if le loss (div t.cfg.loss_threshold (of_ℕ 2))
      then store plane (record seen_loss { consecutive_loss_demote_windows = 0 }) s
      else store plane seen_loss s

  -- `_check_tenant`, `_check_plane` and the read of `self._planes[tenant][plane]`.
  unfoldable pub check_plane :
      EvStateTable Float → String → ℕ → Result (Tenant Float × PlaneRecord Float)
  check_plane t tenant plane = do
    s ← require (lookup tenant t.by_tenant) value_error
    guard (ltb plane t.num_planes) value_error
    rec ← require (get_elem? s.planes plane) index_error
    ok (s, rec)

  unfoldable pub probe_outcome :
      EvStateTable Float → ℕ → Outcome → PlaneRecord Float → Tenant Float → Result (Tenant Float)
  probe_outcome t plane (success none) rec s = raise value_error
  probe_outcome t plane (success (some (negsuc _))) rec s = raise value_error
  probe_outcome t plane (success (some (pos rtt))) rec s = ok (probe_success t plane rtt rec s)
  probe_outcome t plane timeout rec s = ok (probe_timeout t plane rec s)

  abbrev pub put_tenant : EvStateTable Float → String → Tenant Float → EvStateTable Float
  put_tenant t tenant s = record t { by_tenant = insert tenant s t.by_tenant }

  unfoldable pub record_probe_result :
      EvStateTable Float → String → ℕ → Outcome → Result (EvStateTable Float)
  record_probe_result t tenant plane outcome = do
    (s, rec) ← check_plane t tenant plane
    s' ← probe_outcome t plane outcome rec s
    ok (put_tenant t tenant s')

  -- `seen` is clamped to `expected`, and an empty window changes nothing.
  unfoldable pub record_loss_window :
      EvStateTable Float → String → ℕ → ℕ → ℕ → Result (EvStateTable Float)
  record_loss_window t tenant plane seen expected = do
    (s, rec) ← check_plane t tenant plane
    let clamped = if ltb expected seen then expected else seen
    if expected == 0
        then ok t
        else ok
            (put_tenant t tenant (loss_window t plane (ratio (expected - clamped) expected) rec s))

  unfoldable pub new_plane : PlaneRecord Float
  new_plane = record {
    state = unknown;
    consecutive_probe_timeouts = 0;
    consecutive_probe_successes = 0;
    rtt_ring_ns = [];
    consecutive_loss_demote_windows = 0;
    last_loss_ratio = float_zero;
    transitions = 0;
    demotes_suppressed_by_floor = 0;
  }

  unfoldable pub new_tenant : ℕ → Tenant Float
  unfolding new_plane
  new_tenant num_planes =
      let planes = replicate num_planes new_plane in
      record { planes = planes; weights = rebuild_weights num_planes planes; calls = [] }

  unfoldable pub new_tenants : ℕ → List String → Dict String (Tenant Float)
  new_tenants num_planes = foldl (λ d tenant. insert tenant (new_tenant num_planes) d) []

  -- `__init__`
  unfoldable pub init : List String → ℕ → EvStateConfig Float → Result (EvStateTable Float)
  init tenants num_planes cfg = do
    guard (ltb 0 (length tenants)) value_error
    guard (leb 1 num_planes) value_error
    ok (record {
      tenants = tenants;
      num_planes = num_planes;
      cfg = cfg;
      min_active = resolve_min_active cfg.min_active_planes num_planes;
      by_tenant = new_tenants num_planes tenants;
    })
