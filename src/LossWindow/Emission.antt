-- ===== src/LossWindow/Emission.antt =====
-- From a window to the wire and back (loss_window.py with probe.py): the report of a window can
-- always be sent, and the sender decodes what the receiver counted.
use srv6_ai_fabric.Wire.Reports.{encode_loss_report, decode_loss_report, LossReport}
use srv6_ai_fabric.Wire.ReportTrips.{
  IsWireRecord, encode_loss_report_total, decode_loss_report-encode_loss_report,
}
use srv6_ai_fabric.Prelude.{
  All, Bool-cases, Eq, List, arith, inl, inr, length, ok, suc, zero, ℕ, ◌++◌, ◌+◌, ◌==◌, ◌≡◌, ◌≤◌,
}
use srv6_ai_fabric.LossWindow.{LossWindowTable, flow_window, snapshot_and_reset}
use srv6_ai_fabric.LossWindow.Windows.{
  IsFresh, plane_record, plane_records, record_all, seqs_on, snapshot-record_all,
}

plane_records-wire :
    (n i : ℕ) (ps : List (ℕ × ℕ))
    → i + n ≤ 256
    → All IsWireRecord (plane_records n i ps) × (length (plane_records n i ps) ≤ n)
unfolding plane_records
plane_records-wire zero i ps h = (tt, omega arith)
plane_records-wire (suc n) i ps h =
    let (wire, few) = plane_records-wire n (suc i) ps (omega arith) in
    elim (Bool-cases (length (seqs_on i ps) == 0)) [
      | inl silent ↦ rw silent (wire, omega arith)
      | inr heard ↦ rw heard ((capped i (seqs_on i ps) (omega arith), wire), omega arith)
    ]
  where
    capped : (i : ℕ) (ss : List ℕ) → i ≤ 0xff → IsWireRecord (plane_record i ss)
    capped i ss h = record {
      plane_id_u8 = h;
      seen_u32 = omega arith;
      expected_u32 = omega arith;
      max_gap_u32 = omega arith;
    }

module _ {K : Type 0} ⦃e : Eq K⦄ where
  -- The receiver's report on the packets `ps` of a flow, from an empty window on, is encoded
  -- without an error, and what the sender decodes from the bytes, whatever follows them, is the
  -- window's id and the records of those packets.
  pub window_reaches_sender :
      (t t' : LossWindowTable K) (key : K) (ps : List (ℕ × ℕ)) (extra : List ℕ)
      → IsFresh t key
      → record_all t key ps ≡ ok t'
      → (t'' : LossWindowTable K) × (report : LossReport) × (bs : List ℕ) × (snapshot_and_reset t'
            key
          ≡ ok (t'', report))
        × (encode_loss_report report.window_id report.planes ≡ ok bs)
        × (decode_loss_report (bs ++ extra)
            ≡ ok (record {
              window_id = (flow_window t key).next_window_id;
              planes = plane_records t.num_planes 0 ps;
            }))
  window_reaches_sender t t' key ps extra f h =
      let (t'', shot, _, _) = snapshot-record_all t t' key ps f h in
      let id = (flow_window t key).next_window_id in
      let (wire, few) = plane_records-wire t.num_planes 0 ps (omega (arith, f.few_planes)) in
      let (bs, sent, _) =
        encode_loss_report_total id (plane_records t.num_planes 0 ps) (omega (arith, f.id_u16))
          (omega (arith, f.few_planes)) wire in
      (
        t'',
        record { window_id = id; planes = plane_records t.num_planes 0 ps },
        bs,
        shot,
        sent,
        decode_loss_report-encode_loss_report id _ bs extra sent,
      )
