-- ===== src/Tests/Packets.antt =====
-- The codecs at concrete packets.
use srv6_ai_fabric.Wire.Words.{pack, unpack, be, of_be}
use srv6_ai_fabric.Wire.Probes.{
  Probe, ProbeReply, check_fields, decode_probe, decode_probe_packet, decode_probe_reply,
  encode_probe, encode_probe_reply, make_probe, make_probe_reply,
}
use srv6_ai_fabric.Prelude.{
  All, List, [], arith, length, ok, probe_decode_error, raise, refl, ℕ, ◌*◌, ◌++◌, ◌+◌, ◌∷◌, ◌≡◌,
  ◌≤◌, ◌⊎◌,
}
use srv6_ai_fabric.Wire.Reports.{
  LossReport, PlaneLossRecord, decode_body, decode_loss_report, decode_records, encode_loss_report,
  encode_records, loss_hdr_size, loss_rec_size, make_record, make_report, record_of_fields,
}
use srv6_ai_fabric.Wire.ProbeTrips.{IsWireProbe, decode_probe_total}
use srv6_ai_fabric.Wire.ReportTrips.{
  IsWireRecord, decode_loss_report-encode_loss_report, decode_loss_report_total,
  encode_loss_report_total,
}

abbrev sent_probe : Probe
sent_probe = record {
  req_id = 0x0102;
  plane_id = 3;
  tx_ns = 1_000_000_007;
  tenant_id = 1;
  src_id = 15;
  reply_port = 9997;
}

abbrev sent_reply : ProbeReply
sent_reply = record {
  req_id = 0x0102;
  plane_id = 3;
  tx_ns = 1_000_000_007;
  svc_time_ns = 250;
  tenant_id = 1;
  src_id = 15;
  reply_port = 9997;
}

abbrev probe_bytes : List ℕ
probe_bytes =
    0xa5 ∷ 2 ∷ 1 ∷ 2 ∷ 3 ∷ 0 ∷ 0 ∷ 0 ∷ 0 ∷ 0 ∷ 0x3b ∷ 0x9a ∷ 0xca ∷ 7 ∷ 0 ∷ 0 ∷ 0 ∷ 0 ∷ 0 ∷ 0 ∷ 0
    ∷ 0 ∷ 0 ∷ 1 ∷ 0 ∷ 15 ∷ 0x27 ∷ 0x0d ∷ []

abbrev reply_bytes : List ℕ
reply_bytes =
    0xa6 ∷ 2 ∷ 1 ∷ 2 ∷ 3 ∷ 0 ∷ 0 ∷ 0 ∷ 0 ∷ 0 ∷ 0x3b ∷ 0x9a ∷ 0xca ∷ 7 ∷ 0 ∷ 0 ∷ 0 ∷ 0 ∷ 0 ∷ 0 ∷ 0
    ∷ 250 ∷ 0 ∷ 1 ∷ 0 ∷ 15 ∷ 0x27 ∷ 0x0d ∷ []

program : Unit {0}
unfolding encode_probe encode_probe_reply decode_probe decode_probe_reply decode_probe_packet
    check_fields make_probe make_probe_reply encode_loss_report encode_records decode_loss_report
    decode_body decode_records record_of_fields make_record make_report pack unpack be of_be
program = tt

decode_probe_total_example :
    ((p : Probe) × (decode_probe probe_bytes ≡ ok p) × IsWireProbe p)
    ⊎ (decode_probe probe_bytes ≡ raise probe_decode_error)
decode_probe_total_example = decode_probe_total probe_bytes (omega arith)

abbrev two_records : List PlaneLossRecord
two_records =
    record { plane_id = 0; seen = 950; expected = 1000; max_gap = 3 }
    ∷ record { plane_id = 2; seen = 1; expected = 1; max_gap = 0 }
    ∷ []

abbrev report_bytes : List ℕ
report_bytes =
    0xa7 ∷ 1 ∷ 0xff ∷ 0xff ∷ 0 ∷ 2 ∷ 0 ∷ 0 ∷ 0 ∷ 0 ∷ 0 ∷ 0 ∷ 0 ∷ 0 ∷ 3 ∷ 0xb6 ∷ 0 ∷ 0 ∷ 3 ∷ 0xe8 ∷ 0
    ∷ 0 ∷ 0 ∷ 3 ∷ 2 ∷ 0 ∷ 0 ∷ 0 ∷ 0 ∷ 0 ∷ 0 ∷ 1 ∷ 0 ∷ 0 ∷ 0 ∷ 1 ∷ 0 ∷ 0 ∷ 0 ∷ 0 ∷ []

decode_loss_report-encode_loss_report_example :
    decode_loss_report (report_bytes ++ (9 ∷ []))
    ≡ ok (record { window_id = 0xffff; planes = two_records })
unfolding program
decode_loss_report-encode_loss_report_example =
    decode_loss_report-encode_loss_report 0xffff two_records report_bytes (9 ∷ []) refl

encode_loss_report_total_example :
    (bs : List ℕ) × (encode_loss_report 0xffff two_records ≡ ok bs)
    × (length bs ≡ 8 + 16 * length two_records)
encode_loss_report_total_example =
    encode_loss_report_total 0xffff two_records (omega arith) (omega arith) (omega arith)

decode_loss_report_total_example :
    ((r : LossReport) × (decode_loss_report report_bytes ≡ ok r)
      × (r.window_id ≤ 0xffff)
      × All IsWireRecord r.planes
      × (loss_hdr_size + length r.planes * loss_rec_size ≤ length report_bytes))
    ⊎ (decode_loss_report report_bytes ≡ raise probe_decode_error)
decode_loss_report_total_example = decode_loss_report_total report_bytes (omega arith)
