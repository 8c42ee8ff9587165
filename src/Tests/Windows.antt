-- ===== src/Tests/Windows.antt =====
-- A loss window at concrete packets.
use srv6_ai_fabric.Prelude.{String_eq, List, String, [], arith, ok, raise, refl, ℕ, ◌++◌, ◌∷◌, ◌≡◌}
use srv6_ai_fabric.LossWindow.{
  LossWindowTable, count_packet, flow_window, higher, lower, record_packet, snapshot_and_reset,
  span, wider_gap, window_records,
}
use srv6_ai_fabric.LossWindow.Counters.{largest_gap, maximum, minimum}
use srv6_ai_fabric.LossWindow.Windows.{
  IsFresh, plane_records, record_all, seqs_on, snapshot-record_all,
}
use srv6_ai_fabric.LossWindow.Emission.{window_reaches_sender}
use srv6_ai_fabric.Prelude.Dict.{insert, lookup}
use srv6_ai_fabric.Wire.Reports.{
  LossReport, decode_loss_report, encode_loss_report, make_record, make_report,
}

program : Unit {0}
unfolding flow_window record_packet record_all snapshot_and_reset window_records count_packet lower
    higher wider_gap span make_record make_report lookup insert plane_records seqs_on minimum
    maximum largest_gap
program = tt

abbrev empty_table : LossWindowTable String
empty_table = record { num_planes = 3; flows = [] }

abbrev packets : List (ℕ × ℕ)
packets = (0, 7) ∷ (2, 8) ∷ (0, 12) ∷ (0, 9) ∷ []

abbrev counted : LossWindowTable String
unfolding program
counted = elim (record_all empty_table "flow" packets) [ ok t ↦ t | raise _ ↦ empty_table ]

fresh : IsFresh empty_table "flow"
unfolding program
fresh = record { empty = refl; id_u16 = omega arith; few_planes = omega arith }

records :
    plane_records 3 0 packets
    ≡ record { plane_id = 0; seen = 3; expected = 6; max_gap = 5 }
      ∷ record { plane_id = 2; seen = 1; expected = 1; max_gap = 0 }
      ∷ []
unfolding program
records = refl

snapshot-record_all_example :
    (t'' : LossWindowTable String) × (snapshot_and_reset counted "flow"
      ≡ ok (t'', record { window_id = 0; planes = plane_records 3 0 packets }))
    × IsFresh t'' "flow"
    × ((flow_window t'' "flow").next_window_id ≡ 1)
unfolding program
snapshot-record_all_example = snapshot-record_all empty_table counted "flow" packets fresh refl

window_reaches_sender_example :
    (t'' : LossWindowTable String) × (report : LossReport) × (bs : List ℕ) × (snapshot_and_reset
        counted "flow"
      ≡ ok (t'', report))
    × (encode_loss_report report.window_id report.planes ≡ ok bs)
    × (decode_loss_report (bs ++ [])
        ≡ ok (record { window_id = 0; planes = plane_records 3 0 packets }))
unfolding program
window_reaches_sender_example =
    window_reaches_sender empty_table counted "flow" packets [] fresh refl
