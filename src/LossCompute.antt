-- ===== src/LossCompute.antt =====
-- srv6_fabric/mrc/loss_compute.py: a loss report and the sender's own counters turned into loss
-- windows for the EV table. `apply_loss_report` may raise between two records, after it has written
-- the first ones: the loop returns what is written and the exception, if any. The statistics are
-- always given; the source makes a throwaway one for None.
pub mod Rings
pub mod Fusion
use srv6_ai_fabric.Prelude.{
  ◌&&◌, ◌∷◌, ◌++◌, ◌==◌, ◌>>=◌, ◌>>◌, ◌+◌, ◌-◌, ◌/◌, Error, List, Option, Result, String, [], drop,
  get_elem?, guard, if◌then◌else◌, index_error, leb, length, ltb, none, ok, raise, require, some,
  value_error, ℕ,
}
use srv6_ai_fabric.Prelude.Floats.{Floats}
use srv6_ai_fabric.EvState.{EvStateTable, record_loss_window}
use srv6_ai_fabric.Wire.Reports.{LossReport, PlaneLossRecord}
use mathlib.Core.List.{foldl}

pub record SentWindow : Type 0 where
  pub start_ns : ℕ
  pub end_ns : ℕ
  pub sent : List ℕ
  pub window_id : ℕ

abbrev pub midpoint_ns : SentWindow → ℕ
midpoint_ns w = (w.start_ns + w.end_ns) / 2

pub record SentWindowRing : Type 0 where
  pub num_planes : ℕ
  pub capacity : ℕ
  pub ring : List SentWindow

unfoldable pub init : ℕ → ℕ → Result SentWindowRing
init num_planes capacity = do
  guard (ltb 0 num_planes) value_error
  guard (ltb 0 capacity) value_error
  ok (record { num_planes = num_planes; capacity = capacity; ring = [] })

-- The ring is a `deque(maxlen=capacity)`: its oldest windows are dropped.
unfoldable pub push : SentWindowRing → SentWindow → Result SentWindowRing
push r window = do
  guard (length window.sent == r.num_planes) value_error
  let grown = r.ring ++ (window ∷ [])
  ok (record r { ring = drop (length grown - r.capacity) grown })

-- `abs(w.midpoint_ns() - target_ns)`
abbrev pub skew : ℕ → SentWindow → ℕ
skew target_ns w =
    if leb (midpoint_ns w) target_ns then target_ns - midpoint_ns w else midpoint_ns w - target_ns

-- One turn of the loop on `best` and `best_skew`.
abbrev pub closer : ℕ → Option SentWindow × ℕ → SentWindow → Option SentWindow × ℕ
closer target_ns (best, best_skew) w =
    if ltb (skew target_ns w) best_skew then (some w, skew target_ns w) else (best, best_skew)

unfoldable pub find_closest : SentWindowRing → ℕ → ℕ → Option SentWindow
find_closest r target_ns max_skew_ns = (foldl (closer target_ns) (none, max_skew_ns + 1) r.ring).0

pub record LossFusionStats : Type 0 where
  pub reports_processed : ℕ
  pub planes_updated : ℕ
  pub planes_skipped_no_data : ℕ
  pub paired_with_sent_window : ℕ
  pub fell_back_to_receiver_expected : ℕ
  pub no_pairing_window_in_ring : ℕ

-- `paired.sent[rec.plane_id]`, and 0 without a paired window.
unfoldable pub sender_sent : Option SentWindow → ℕ → Result ℕ
sender_sent none plane_id = ok 0
sender_sent (some w) plane_id = require (get_elem? w.sent plane_id) index_error

abbrev pub count_plane : ℕ → LossFusionStats → LossFusionStats
count_plane sent stats = record stats {
  planes_updated = stats.planes_updated + 1;
  paired_with_sent_window =
      if ltb 0 sent then stats.paired_with_sent_window + 1 else stats.paired_with_sent_window;
  fell_back_to_receiver_expected =
      if ltb 0 sent
      then stats.fell_back_to_receiver_expected
      else stats.fell_back_to_receiver_expected + 1;
}

unfoldable pub count_report : Option SentWindow → LossFusionStats → LossFusionStats
count_report none stats = record stats {
  reports_processed = stats.reports_processed + 1;
  no_pairing_window_in_ring = stats.no_pairing_window_in_ring + 1;
}
count_report (some w) stats = record stats { reports_processed = stats.reports_processed + 1 }

module _ (fl : Floats) where
  open fl use {Float, float_zero, float_one, ratio, sub}

  unfoldable pub compute_loss_ratio : ℕ → ℕ → Float
  compute_loss_ratio seen sent_or_expected =
      if leb sent_or_expected 0
      then float_zero
      else if leb sent_or_expected seen
      then float_zero
      else sub float_one (ratio seen sent_or_expected)

  -- What the loop has written to.
  abbrev pub Fused : Type 0
  Fused = EvStateTable Float × LossFusionStats

  -- The last part of the loop's body, from `table.record_loss_window` on.
  unfoldable pub update_plane : String → PlaneLossRecord → ℕ → Fused → Result Fused
  update_plane tenant rec sent (t, stats) = do
    let denominator = if ltb 0 sent then sent else rec.expected
    t' ← record_loss_window fl t tenant rec.plane_id rec.seen denominator
    ok (t', count_plane sent stats)

  abbrev pub skip_plane : Fused → Fused
  skip_plane (t, stats) =
      (t, record stats { planes_skipped_no_data = stats.planes_skipped_no_data + 1 })

  -- The body of the loop.
  unfoldable pub apply_record : String → Option SentWindow → PlaneLossRecord → Fused → Result Fused
  apply_record tenant paired rec f =
      if (rec.seen == 0) && (rec.expected == 0) then ok (skip_plane f) else (do
        sent ← sender_sent paired rec.plane_id
        if (sent == 0) && (rec.expected == 0)
            then ok (skip_plane f)
            else update_plane tenant rec sent f)

  unfoldable pub apply_records :
      String → Option SentWindow → List PlaneLossRecord → Fused → Fused × Option Error
  apply_records tenant paired [] f = (f, none)
  apply_records tenant paired (rec ∷ recs) f = elim (apply_record tenant paired rec f) [
    | raise e ↦ (f, some e)
    | ok f' ↦ apply_records tenant paired recs f'
  ]

  -- `apply_loss_report` once its window is found; an empty report is no report.
  unfoldable pub apply_paired :
      String → Option SentWindow → List PlaneLossRecord → Fused → Fused × Option Error
  apply_paired tenant paired [] f = (f, none)
  apply_paired tenant paired (rec ∷ recs) (t, stats) =
      apply_records tenant paired (rec ∷ recs) (t, count_report paired stats)

  unfoldable pub apply_loss_report :
      String → LossReport → SentWindowRing → ℕ → ℕ → Fused → Fused × Option Error
  apply_loss_report tenant report sent_ring received_at_ns max_window_skew_ns =
      apply_paired tenant (find_closest sent_ring received_at_ns max_window_skew_ns) report.planes
