-- ===== src/Tests/EvStates.antt =====
-- The EV state table at concrete inputs.
use srv6_ai_fabric.Prelude.{
  String_eq, List, String, [], map, none, ok, refl, some, ◌∷◌, ◌≡◌, All, arith, get_elem?, length,
  replicate, true, ◌≢◌, ◌≤◌, ◌⊎◌, ℕ,
}
use srv6_ai_fabric.EvState.{
  EvStateConfig, EvStateTable, PlaneRecord, Tenant, assumed_bad, check_plane, init, loss_window,
  new_plane, new_tenant, new_tenants, probe_outcome, probe_success, probe_timeout, rebuild_weights,
  record_loss_window, record_probe_result, resolve_min_active, ring_append, timeout,
  transition_locked, try_demote_locked, unknown, usable_after, Transition, good, success,
}
use srv6_ai_fabric.EvState.Count.{usable}
use srv6_ai_fabric.EvState.Table.{Event, handle, loss, probe, run, IsFound}
use srv6_ai_fabric.EvState.Invariant.{replay, total_transitions, states}
use srv6_ai_fabric.Prelude.Dict.{insert, lookup}
use srv6_ai_fabric.EvState.Weights.{run-weights}
use srv6_ai_fabric.EvState.Progress.{IsIn, enough_successes_promote, enough_timeouts_demote}
use srv6_ai_fabric.EvState.Safety.{Change, handle-legal, run-callback, run-floor}
use srv6_ai_fabric.Tests.Fractions.{Fraction, frac, fraction_laws, fractions}
use srv6_ai_fabric.Prelude.Int.{pos}

abbrev pub config : EvStateConfig Fraction
config = record {
  probe_fail_threshold = 3;
  probe_recover_threshold = 5;
  loss_threshold = frac 5 99;
  loss_demote_consecutive = 2;
  min_active_planes = none;
  rtt_ring_size = 64;
}

abbrev pub names : List String
names = "green" ∷ "yellow" ∷ []

abbrev pub table : EvStateTable Fraction
table = record {
  tenants = names;
  num_planes = 4;
  cfg = config;
  min_active = 2;
  by_tenant = ("green", new_tenant fractions 4) ∷ ("yellow", new_tenant fractions 4) ∷ [];
}

-- The definitions that a run computes with.
program : Unit {0}
unfolding init resolve_min_active new_tenants new_tenant new_plane insert lookup run handle
    record_probe_result record_loss_window check_plane probe_outcome probe_success probe_timeout
    loss_window try_demote_locked transition_locked usable_after rebuild_weights ring_append usable
    replay total_transitions
program = tt

init-table : init fractions names 4 config ≡ ok table
unfolding program
init-table = refl

abbrev pub lossy : List Event
lossy =
    loss "green" 1 900 1000
    ∷ loss "green" 1 1200 1000
    ∷ loss "green" 1 800 1000
    ∷ loss "green" 1 800 1000
    ∷ probe "green" 9 timeout
    ∷ []

abbrev after_lossy : EvStateTable Fraction
unfolding program
after_lossy = run fractions table lossy

abbrev pub green : EvStateTable Fraction → Tenant Fraction
green t = elim (lookup "green" t.by_tenant) [ none ↦ new_tenant fractions 0 | some s ↦ s ]

lossy_demotes :
    map (λ (r : PlaneRecord Fraction). r.state) (green after_lossy).planes
    ≡ unknown ∷ assumed_bad ∷ unknown ∷ unknown ∷ []
unfolding program
lossy_demotes = refl

abbrev plane₁ : PlaneRecord Fraction
plane₁ = record {
  state = assumed_bad;
  consecutive_probe_timeouts = 0;
  consecutive_probe_successes = 0;
  rtt_ring_ns = [];
  consecutive_loss_demote_windows = 2;
  last_loss_ratio = frac 200 999;
  transitions = 1;
  demotes_suppressed_by_floor = 0;
}

run-floor_example :
    (length (green after_lossy).planes ≡ 4)
    × (2 ≤ usable (green after_lossy).planes)
    × (1 ≤ usable (green after_lossy).planes)
unfolding program
run-floor_example =
    run-floor fractions names 4 config lossy table "green" (green after_lossy) refl refl

run-callback_example :
    (states (green after_lossy).planes ≡ replay 4 (green after_lossy).calls)
    × All (λ (c : Transition). c.old ≢ c.new) (green after_lossy).calls
    × (total_transitions (green after_lossy).planes ≡ length (green after_lossy).calls)
unfolding program
run-callback_example =
    run-callback fractions names 4 config lossy table "green" (green after_lossy) refl refl

run-weights_example :
    (w : Fraction) × (get_elem? (green after_lossy).weights 1 ≡ some w)
    × (((plane₁.state ≡ assumed_bad) × (w ≡ frac 0 0))
        ⊎ ((plane₁.state ≢ assumed_bad) × (fractions.lt (frac 0 0) w ≡ true)))
unfolding program
run-weights_example =
    run-weights fractions fraction_laws names 4 config lossy table "green" (green after_lossy) 1
      plane₁ refl refl refl

found : IsFound fractions table "green" 1 (new_tenant fractions 4) (new_plane fractions)
unfolding program
found = record { known = refl; in_range = omega arith; read = refl }

enough_timeouts_demote_example :
    IsIn fractions "green" 1
      (run fractions table (replicate 3 (probe "green" 1 timeout)))
      assumed_bad
unfolding program
enough_timeouts_demote_example =
    enough_timeouts_demote fractions "green" 1 3 table (new_tenant fractions 4)
      (new_plane fractions) found (omega arith) (omega arith) (omega arith)

enough_successes_promote_example :
    IsIn fractions "green" 1
      (run fractions table
        (map (λ rtt. probe "green" 1 (success (some (pos rtt)))) (9 ∷ 8 ∷ 9 ∷ 7 ∷ 8 ∷ [])))
      good
unfolding program
enough_successes_promote_example =
    enough_successes_promote fractions "green" 1 (9 ∷ 8 ∷ 9 ∷ 7 ∷ 8 ∷ []) table
      (new_tenant fractions 4) (new_plane fractions) found refl (omega arith) (omega arith)

abbrev before : EvStateTable Fraction
unfolding program
before = run fractions table (loss "green" 1 900 1000 ∷ [])

abbrev after : EvStateTable Fraction
unfolding program
after = run fractions before (loss "green" 1 800 1000 ∷ [])

abbrev plane₁_before : PlaneRecord Fraction
plane₁_before =
    record (record (unfold new_plane in new_plane fractions) {
      consecutive_loss_demote_windows = 1;
    }) { last_loss_ratio = frac 100 999 }

abbrev plane₁_after : PlaneRecord Fraction
plane₁_after = record plane₁ { consecutive_loss_demote_windows = 2 }

handle-legal_example :
    (◌≡◌ {A = ℕ} 1 1) × Change fractions before 1 (green before) plane₁_before assumed_bad
unfolding program
handle-legal_example =
    handle-legal fractions before (loss "green" 1 800 1000) after (green before) (green after) 1
      plane₁_before plane₁_after refl refl refl refl refl (λ q. cc)
