-- ===== src/Tests/Flows.antt =====
-- Reorder statistics and plane health at concrete packets and probes.
use srv6_ai_fabric.Prelude.{
  String_eq, ℕ_eq, Bool, List, [], arith, false, none, ok, raise, refl, true, value_error, ℕ, ◌==◌,
  ◌∷◌, ◌≡◌,
}
use srv6_ai_fabric.Tests.Fractions.{fractions, frac}
use srv6_ai_fabric.Prelude.Dict.{lookup, insert}
use srv6_ai_fabric.Topo.{FlowKey, FlowKey_eq}
use srv6_ai_fabric.Policy.{mem}
use srv6_ai_fabric.Reorder.{
  loss, reorder_max, FlowStats, add_to_window, bump, bump_plane, first_reaching, flow_stats,
  greatest_key, insert_item, observe, observe_new, percentile_of, reorder_percentile, sorted_items,
  total,
}
use srv6_ai_fabric.Health.{
  HealthMonitor, clear, last_status, make_monitor, record_answer, record_failure, record_success,
  status_from, tick, tick_from, ticks,
}
use srv6_ai_fabric.Reorder.Flows.{entry_after, packets_of, track_all, track_all-lookup}
use srv6_ai_fabric.Reorder.Counts.{IsCounted, observe_all, observe_all-IsCounted}
use srv6_ai_fabric.Reorder.Gaps.{loss-missing, missing}
use srv6_ai_fabric.Reorder.Percentiles.{IsFirst, reorder_percentile-IsFirst, target_of}
use srv6_ai_fabric.Reorder.Bins.{at_most, is_bin}
use srv6_ai_fabric.Health.Machine.{step, ticks-threshold, ticks-view, view}

abbrev flow : FlowKey
flow = record { src_addr = "a"; dst_addr = "b"; src_port = 9999; dst_port = 9999 }

abbrev other : FlowKey
other = record { src_addr = "a"; dst_addr = "c"; src_port = 9999; dst_port = 9999 }

-- Sequence numbers and planes: 6 comes late, 8 twice, 9 never.
abbrev arrivals : List (ℕ × ℕ)
arrivals = (5, 0) ∷ (7, 2) ∷ (6, 1) ∷ (8, 3) ∷ (8, 3) ∷ (10, 0) ∷ []

program : Unit {0}
unfolding observe_all observe observe_new bump bump_plane mem lookup insert add_to_window total
    missing is_bin at_most percentile_of first_reaching sorted_items insert_item greatest_key
program = tt

numbers : (observe_all (flow_stats flow) arrivals).received ≡ 5
unfolding program
numbers = refl

bins : (observe_all (flow_stats flow) arrivals).reorder_hist ≡ (0, 4) ∷ (1, 1) ∷ []
unfolding program
bins = refl

one_lost : loss (observe_all (flow_stats flow) arrivals) ≡ 1
unfolding program
one_lost = refl

half : reorder_percentile fractions (observe_all (flow_stats flow) arrivals) (frac 50 0) ≡ ok 0
unfolding program
half = refl

most : reorder_percentile fractions (observe_all (flow_stats flow) arrivals) (frac 99 0) ≡ ok 1
unfolding program
most = refl

-- A first packet that is late hides a loss: 2 is never seen.
late_first : loss (observe_all (flow_stats flow) ((1, 0) ∷ (0, 1) ∷ (3, 2) ∷ [])) ≡ 0
unfolding program
late_first = refl

observe_all-IsCounted_example : IsCounted (observe_all (flow_stats flow) arrivals) 6
observe_all-IsCounted_example = observe_all-IsCounted flow arrivals

loss-missing_example :
    loss (observe_all (flow_stats flow) ((5, 0) ∷ (7, 2) ∷ (6, 1) ∷ (10, 0) ∷ []))
    ≡ missing 5 6 (5 ∷ 7 ∷ 6 ∷ 10 ∷ [])
loss-missing_example =
    loss-missing flow 5 0 ((7, 2) ∷ (6, 1) ∷ (10, 0) ∷ [])
      (omega arith, (omega arith, (omega arith, tt))) (omega arith)

abbrev shown : FlowStats
shown = observe_all (flow_stats flow) ((5, 0) ∷ (7, 2) ∷ (6, 1) ∷ [])

reorder_percentile-IsFirst_example :
    (r : ℕ) × (reorder_percentile fractions shown (frac 99 0) ≡ ok r)
    × IsFirst fractions
        (target_of fractions shown.received (frac 99 0))
        (reorder_max shown)
        r
        0
        shown.reorder_hist
reorder_percentile-IsFirst_example =
    reorder_percentile-IsFirst fractions flow (5, 0) ((7, 2) ∷ (6, 1) ∷ []) (frac 99 0) refl

track_all-lookup_example :
    lookup flow (track_all [] ((flow, 0, 0) ∷ (other, 0, 1) ∷ (flow, 1, 2) ∷ []))
    ≡ entry_after flow none (packets_of flow ((flow, 0, 0) ∷ (other, 0, 1) ∷ (flow, 1, 2) ∷ []))
track_all-lookup_example = track_all-lookup ((flow, 0, 0) ∷ (other, 0, 1) ∷ (flow, 1, 2) ∷ []) flow

-- Two planes, down after two failures, up after one success.
abbrev monitor : HealthMonitor
monitor = record {
  down = [];
  num_planes = 2;
  threshold = 2;
  recovery = 1;
  fail_streak = 0 ∷ 0 ∷ [];
  pass_streak = 0 ∷ 0 ∷ [];
}

abbrev plane_1_fails : ℕ → Bool
plane_1_fails p = p == 0

made : make_monitor [] 2 2 1 ≡ ok monitor
unfolding make_monitor
made = refl

no_threshold : make_monitor [] 2 0 1 ≡ raise value_error
unfolding make_monitor
no_threshold = refl

marked :
    last_status (ticks (plane_1_fails ∷ plane_1_fails ∷ []) monitor) ≡ (0, "up") ∷ (1, "down") ∷ []
unfolding ticks tick tick_from record_answer record_success record_failure clear mem status_from
marked = refl

ticks-view_example :
    view (ticks (plane_1_fails ∷ plane_1_fails ∷ []) monitor) 1
    ≡ step 2 1 (step 2 1 (view monitor 1) false) false
ticks-view_example =
    ticks-view (plane_1_fails ∷ plane_1_fails ∷ []) monitor 1 (refl, refl) (omega arith)

ticks-threshold_example :
    mem 1 (ticks ((λ p. true) ∷ plane_1_fails ∷ plane_1_fails ∷ []) monitor).down ≡ true
ticks-threshold_example =
    ticks-threshold ((λ p. true) ∷ []) (plane_1_fails ∷ plane_1_fails ∷ []) monitor 1 2 false
      (refl, refl) (omega arith) (omega arith) (omega arith) refl
