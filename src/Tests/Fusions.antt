-- ===== src/Tests/Fusions.antt =====
-- Loss reports at a concrete ring and table.
use srv6_ai_fabric.Prelude.{
  String_eq, [], refl, some, none, ◌∷◌, ◌≡◌, arith, get_elem?, ◌≤◌, ◌<◌, ◌⊎◌, ◌+◌, ℕ, All,
}
use srv6_ai_fabric.EvState.{
  init, check_plane, loss_window, new_plane, new_tenant, new_tenants, probe_outcome, probe_timeout,
  rebuild_weights, record_loss_window, record_probe_result, resolve_min_active, transition_locked,
  try_demote_locked, usable_after,
}
use srv6_ai_fabric.EvState.Table.{handle, run, init-IsValid}
use srv6_ai_fabric.Prelude.Dict.{insert, lookup}
use srv6_ai_fabric.Wire.Reports.{LossReport, PlaneLossRecord}
use srv6_ai_fabric.Tests.Fractions.{fractions}
use srv6_ai_fabric.Tests.EvStates.{config, names, table}
use srv6_ai_fabric.LossCompute.{
  SentWindow, SentWindowRing, LossFusionStats, push, find_closest, skew, apply_loss_report,
  apply_paired, apply_records, apply_record, update_plane, sender_sent, count_report,
}
use srv6_ai_fabric.LossCompute.Rings.{find_closest_lem}
use srv6_ai_fabric.LossCompute.Fusion.{Accounts, IsReady, apply_loss_report-run, loss_events}

abbrev sent_window : ℕ → ℕ → SentWindow
sent_window start_ns n = record {
  start_ns = start_ns;
  end_ns = start_ns + 100;
  sent = n ∷ 0 ∷ n ∷ n ∷ [];
  window_id = 7;
}

abbrev ring : SentWindowRing
ring = record {
  num_planes = 4;
  capacity = 2;
  ring = sent_window 1000 50 ∷ sent_window 1100 60 ∷ [];
}

abbrev pushed : SentWindowRing
pushed = record ring { ring = sent_window 1100 60 ∷ sent_window 1200 70 ∷ [] }

program : Unit {0}
unfolding init resolve_min_active new_tenants new_tenant new_plane insert lookup run handle
    record_probe_result record_loss_window check_plane probe_outcome probe_timeout loss_window
    try_demote_locked transition_locked usable_after rebuild_weights push find_closest
    apply_loss_report apply_paired apply_records apply_record update_plane sender_sent count_report
program = tt

too_far : find_closest ring 5000 500 ≡ none
unfolding program
too_far = refl

find_closest_lem_example :
    ((find_closest ring 1120 500 ≡ none) × All (λ w. 500 < skew 1120 w) ring.ring)
    ⊎ ((w : SentWindow) × (i : ℕ) × (find_closest ring 1120 500 ≡ some w)
        × (get_elem? ring.ring i ≡ some w)
        × (skew 1120 w ≤ 500)
        × All (λ v. skew 1120 w ≤ skew 1120 v) ring.ring)
find_closest_lem_example = find_closest_lem ring 1120 500

abbrev record_of : ℕ → ℕ → ℕ → PlaneLossRecord
record_of plane_id seen expected = record {
  plane_id = plane_id;
  seen = seen;
  expected = expected;
  max_gap = 3;
}

abbrev report : LossReport
report = record {
  window_id = 3;
  planes = record_of 0 40 90 ∷ record_of 1 30 40 ∷ record_of 2 0 0 ∷ [];
}

abbrev no_stats : LossFusionStats
no_stats = record {
  reports_processed = 0;
  planes_updated = 0;
  planes_skipped_no_data = 0;
  paired_with_sent_window = 0;
  fell_back_to_receiver_expected = 0;
  no_pairing_window_in_ring = 0;
}

counted :
    (apply_loss_report fractions "green" report ring 1120 500 (table, no_stats)).0.1 ≡ record {
      reports_processed = 1;
      planes_updated = 2;
      planes_skipped_no_data = 1;
      paired_with_sent_window = 1;
      fell_back_to_receiver_expected = 1;
      no_pairing_window_in_ring = 0;
    }
unfolding program
counted = refl

ready : IsReady fractions table "green" 4
unfolding program
ready = record {
  valid = init-IsValid fractions names 4 config refl;
  there = λ q. cc;
  planes = refl;
}

apply_loss_report-run_example :
    (stats' : LossFusionStats) × (apply_loss_report fractions "green" report ring 1120 500
        (table, no_stats)
      ≡ (
        (
          run fractions table (loss_events "green" (find_closest ring 1120 500) report.planes),
          stats',
        ),
        none,
      ))
    × Accounts fractions no_stats 3 stats'
apply_loss_report-run_example =
    apply_loss_report-run fractions "green" report ring 1120 500 table no_stats ready
      (refl, (refl, tt)) (omega arith, (omega arith, (omega arith, tt)))
