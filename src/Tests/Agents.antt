-- ===== src/Tests/Agents.antt =====
-- The sender's turns at concrete datagrams.
use srv6_ai_fabric.Prelude.{
  String_eq, List, [], ok, raise, refl, some, ◌∷◌, ◌++◌, ◌≡◌, arith, get_elem?, replicate,
  value_error, ◌<◌, ◌⊎◌, ℕ, inl,
}
use srv6_ai_fabric.EvState.{
  EvStateTable, check_plane, new_plane, new_tenant, probe_outcome, probe_success, rebuild_weights,
  record_probe_result, ring_append, success, transition_locked,
}
use srv6_ai_fabric.Prelude.Dict.{insert, lookup}
use srv6_ai_fabric.Prelude.Int.{pos}
use srv6_ai_fabric.Tests.Fractions.{Fraction, fractions}
use srv6_ai_fabric.Tests.EvStates.{table}
use srv6_ai_fabric.ProbeClock.{
  init, ProbeClock, emit, emit_plane, evict, new_plane_clock, plane_clock,
}
use srv6_ai_fabric.ProbeClock.Runs.{Call, emit_at, reply_at, sweep_at, run, init-IsValid}
use srv6_ai_fabric.Wire.Words.{be, pack}
use srv6_ai_fabric.Receiver.{ReceiverAgent, SenderKey_eq, echo, on_probe, on_probe-echo}
use srv6_ai_fabric.Wire.Probes.{
  Probe, decode_probe_reply, encode_probe, ProbeReply, encode_probe_reply,
}
use srv6_ai_fabric.LossCompute.{SentWindow, push}
use srv6_ai_fabric.Agent.{SenderAgent, on_reply, rotate_window}
use srv6_ai_fabric.Agent.Replies.{on_reply-emitted, on_reply-unknown_plane}
use srv6_ai_fabric.Agent.SentWindows.{count, record_all, rotate_window-record_all}

program : Unit {0}
unfolding init new_tenant new_plane rebuild_weights insert lookup record_probe_result check_plane
    probe_outcome probe_success ring_append transition_locked emit emit_plane evict plane_clock be
    pack encode_probe_reply encode_probe
program = tt

abbrev clock : ProbeClock
clock = record {
  num_planes = 4;
  probe_timeout_ns = 50;
  max_outstanding = 2;
  planes = replicate 4 new_plane_clock;
  stale_replies = 0;
}

init-clock : init 4 50 2 ≡ ok clock
unfolding program
init-clock = refl

abbrev agent : SenderAgent Fraction
agent = record {
  num_planes = 4;
  tenant = "green";
  tenant_id = 1;
  src_id = 0;
  report_port = 9997;
  max_window_skew_ns = 500;
  table = table;
  probe_clock = clock;
  sent_ring = record { num_planes = 4; capacity = 16; ring = [] };
  stats = record {
    reports_processed = 0;
    planes_updated = 0;
    planes_skipped_no_data = 0;
    paired_with_sent_window = 0;
    fell_back_to_receiver_expected = 0;
    no_pairing_window_in_ring = 0;
  };
  current_window_sent = replicate 4 0;
  current_window_start_ns = 1000;
  current_window_id = 0;
}

abbrev reply_for : ℕ → ProbeReply
reply_for plane_id = record {
  req_id = 0;
  plane_id = plane_id;
  tx_ns = 7;
  svc_time_ns = 0;
  tenant_id = 1;
  src_id = 0;
  reply_port = 9997;
}

abbrev reply_bytes : ℕ → List ℕ
reply_bytes plane_id =
    0xa6 ∷ 2 ∷ 0 ∷ 0 ∷ plane_id ∷ 0 ∷ 0 ∷ 0 ∷ 0 ∷ 0 ∷ 0 ∷ 0 ∷ 0 ∷ 7 ∷ 0 ∷ 0 ∷ 0 ∷ 0 ∷ 0 ∷ 0 ∷ 0 ∷ 0
    ∷ 0 ∷ 1 ∷ 0 ∷ 0 ∷ 0x27 ∷ 0x0d ∷ []

on_reply-unknown_plane_example :
    on_reply fractions agent (reply_bytes 9 ++ []) 100 ≡ raise value_error
unfolding program
on_reply-unknown_plane_example =
    on_reply-unknown_plane fractions agent (reply_for 9) (reply_bytes 9) [] 100 refl (omega arith)

abbrev emitted : ProbeClock
unfolding program
emitted = elim (emit clock 2 7) [ ok (c, _, _) ↦ c | raise _ ↦ clock ]

abbrev recorded : EvStateTable Fraction
unfolding program
recorded = elim (record_probe_result fractions table "green" 2 (success (some (pos 93)))) [
  | ok t ↦ t
  | raise _ ↦ table
]

-- One more probe of the plane with its reply, and a sweep within the timeout.
abbrev meanwhile : List Call
meanwhile = emit_at 2 20 ∷ reply_at 1 2 20 30 ∷ sweep_at 40 ∷ []

on_reply-emitted_example :
    (a' : SenderAgent Fraction) × (on_reply fractions
        (record agent { probe_clock = run emitted meanwhile })
        (reply_bytes 2 ++ (1 ∷ []))
        100
      ≡ ok a')
    × (a'.table ≡ recorded)
unfolding program lookup
on_reply-emitted_example =
    on_reply-emitted fractions agent 2 7 100 0 7 emitted meanwhile (reply_for 2) (reply_bytes 2)
      (1 ∷ []) recorded (init-IsValid 4 50 2 init-clock) (_, refl, refl) refl
      (tt, (inl (λ e. absurd (omega arith)), (omega arith, tt))) (omega arith) (omega arith) refl
      refl refl refl (omega arith) refl

rotate_window-record_all_example :
    (a' : SenderAgent Fraction) × (rotate_window (record_all agent (2 ∷ 0 ∷ 2 ∷ 9 ∷ [])) 1200
      ≡ ok a')
    × (a'.current_window_sent ≡ replicate 4 0)
    × (((a'.sent_ring ≡ agent.sent_ring) × ((p : ℕ) → p < 4 → count p (2 ∷ 0 ∷ 2 ∷ 9 ∷ []) ≡ 0))
        ⊎ ((w : SentWindow) × (q : ℕ) × (q < 4)
            × (0 < count q (2 ∷ 0 ∷ 2 ∷ 9 ∷ []))
            × (push agent.sent_ring w ≡ ok a'.sent_ring)
            × (w.start_ns ≡ 1000)
            × (w.end_ns ≡ 1200)
            × ((p : ℕ) → p < 4 → get_elem? w.sent p ≡ some (count p (2 ∷ 0 ∷ 2 ∷ 9 ∷ [])))))
rotate_window-record_all_example =
    rotate_window-record_all agent (2 ∷ 0 ∷ 2 ∷ 9 ∷ []) 1200 refl refl

abbrev probe : Probe
probe = record { req_id = 0; plane_id = 2; tx_ns = 7; tenant_id = 1; src_id = 0; reply_port = 9997 }

abbrev probe_bytes : List ℕ
probe_bytes =
    0xa5 ∷ 2 ∷ 0 ∷ 0 ∷ 2 ∷ 0 ∷ 0 ∷ 0 ∷ 0 ∷ 0 ∷ 0 ∷ 0 ∷ 0 ∷ 7 ∷ 0 ∷ 0 ∷ 0 ∷ 0 ∷ 0 ∷ 0 ∷ 0 ∷ 0 ∷ 0 ∷ 1
    ∷ 0 ∷ 0 ∷ 0x27 ∷ 0x0d ∷ []

abbrev receiver : ReceiverAgent
receiver = record { senders = [] }

on_probe-echo_example :
    (r' : ReceiverAgent) × (reply : List ℕ) × (on_probe receiver (probe_bytes ++ []) "::1"
      ≡ ok (r', some reply))
    × (decode_probe_reply (reply ++ []) ≡ ok (echo probe))
    × (lookup (record { tenant_id = 1; src_id = 0 }) r'.senders
        ≡ some (record { underlay_addr = "::1"; report_port = 9997 }))
unfolding program
on_probe-echo_example = on_probe-echo receiver probe probe_bytes [] "::1" refl
