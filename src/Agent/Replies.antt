-- ===== src/Agent/Replies.antt =====
-- Probes and replies through the whole sender (agent.py, `_emit_loop` and `_reply_rx_loop`).
use srv6_ai_fabric.Prelude.{
  All, sym, le→leb, ◌<◌, ◌-◌, ◌≡◌, ◌≤◌, ◌++◌, List, arith, ok, raise, refl, value_error, ℕ, ltb,
  false, some,
}
use srv6_ai_fabric.Prelude.Floats.{Floats}
use srv6_ai_fabric.ProbeClock.Flights.{Spares, emits}
use srv6_ai_fabric.ProbeClock.Emissions.{IsFreshId, emit-run-match_reply}
use srv6_ai_fabric.ProbeClock.Runs.{IsValid, Call, run}
use srv6_ai_fabric.EvState.{EvStateTable, record_probe_result, success}
use srv6_ai_fabric.Prelude.Int.{pos, sub_ℕ}
use srv6_ai_fabric.ProbeClock.{emit, ProbeClock, match_reply, plane_clock}
use srv6_ai_fabric.Wire.Probes.{ProbeReply, encode_probe_reply}
use srv6_ai_fabric.Wire.ProbeTrips.{decode_probe_reply-encode_probe_reply}
use srv6_ai_fabric.Agent.{record_reply, SenderAgent, on_reply, handle_reply}

module _ (fl : Floats) where
  open fl use {Float}

  -- A well-formed reply for a plane that the fabric does not have is not taken for a stale one: the
  -- turn raises ValueError.
  pub on_reply-unknown_plane :
      (a : SenderAgent Float) (reply : ProbeReply) (bs extra : List ℕ) (now : ℕ)
      → encode_probe_reply reply ≡ ok bs
      → a.probe_clock.num_planes ≤ reply.plane_id
      → on_reply fl a (bs ++ extra) now ≡ raise value_error
  unfolding on_reply handle_reply match_reply plane_clock
  on_reply-unknown_plane a reply bs extra now h outside =
      let decoded = decode_probe_reply-encode_probe_reply reply bs extra h in
      let e : ltb reply.plane_id a.probe_clock.num_planes ≡ false = ground arith in
      rw (decoded, e) refl

  -- A probe that the sender has emitted, under an id that was not in flight, and whose reply comes back
  -- no earlier, echoing its request id, plane and time, whatever follows it in the datagram, gives the EV
  -- table, if that takes it, one success of that plane with the time since the probe was sent. In between
  -- the clock may have seen any calls but a reply with the probe's id and plane and a sweep once
  -- its timeout was over, with fewer probes of the plane than the clock's cap and than there are ids.
  pub on_reply-emitted :
      (a : SenderAgent Float) (plane now later req_id tx : ℕ) (c' : ProbeClock) (es : List Call)
      (reply : ProbeReply) (bs extra : List ℕ) (t' : EvStateTable Float)
      → IsValid a.probe_clock
      → IsFreshId a.probe_clock plane
      → emit a.probe_clock plane now ≡ ok (c', req_id, tx)
      → All (Spares req_id plane tx a.probe_clock.probe_timeout_ns) es
      → emits plane es < a.probe_clock.max_outstanding
      → emits plane es < 0x10000
      → encode_probe_reply reply ≡ ok bs
      → reply.req_id ≡ req_id
      → reply.plane_id ≡ plane
      → reply.tx_ns ≡ tx
      → tx ≤ later
      → record_probe_result fl a.table a.tenant plane (success (some (pos (later - tx)))) ≡ ok t'
      → (a' : SenderAgent Float) × (on_reply fl
            (record a { probe_clock = run c' es })
            (bs ++ extra)
            later
          ≡ ok a')
        × (a'.table ≡ t')
  unfolding on_reply handle_reply record_reply
  on_reply-emitted a plane now later req_id tx c' es reply bs extra t' v fresh sent spared room few
        enc i p x order recorded =
      let (c₂, e) =
        emit-run-match_reply a.probe_clock c' plane now later req_id tx es v fresh sent spared room
          few in
      let rtt : sub_ℕ later tx ≡ pos (later - tx) = rw (le→leb tx later order) refl in
      let matched : match_reply (run c' es) reply.req_id reply.plane_id reply.tx_ns later
          ≡ ok (c₂, some (pos (later - tx))) =
        rw (i, p, x, sym rtt) e in
      let decoded = decode_probe_reply-encode_probe_reply reply bs extra enc in
      (record a { probe_clock = c₂; table = t' }, rw (decoded, matched, p, recorded) refl, refl)
