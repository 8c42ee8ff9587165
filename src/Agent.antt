-- ===== src/Agent.antt =====
-- srv6_fabric/mrc/agent.py, the sender: each turn of a thread's loop as a function of the agent's
-- state. A datagram that comes in is an argument, one that goes out is a result. The threads are
-- left out: a turn is one step. Sockets, pacing, logging and the agents' start and stop are I/O. A
-- turn that raises ends its thread; what `_report_rx_loop` has written by then is kept.
pub mod Replies
pub mod SentWindows
use srv6_ai_fabric.Prelude.{
  ◌∷◌, ◌+◌, ◌%◌, ◌>>=◌, ◌||◌, Bool, Error, List, Option, Result, String, [], false, get_elem?,
  if◌then◌else◌, ltb, none, ok, probe_decode_error, raise, replicate, set, some, value_error, ℕ,
  ◌>>◌,
}
use srv6_ai_fabric.Prelude.Int.{ℤ}
use srv6_ai_fabric.Prelude.Floats.{Floats}
use srv6_ai_fabric.EvState.{EvStateTable, record_probe_result, success, timeout}
use srv6_ai_fabric.Wire.Probes.{ProbeReply, decode_probe_reply, encode_probe}
use srv6_ai_fabric.Wire.Reports.{LossReport, decode_loss_report}
use srv6_ai_fabric.ProbeClock.{ProbeClock, emit, match_reply, sweep_timeouts}
use srv6_ai_fabric.LossCompute.{
  LossFusionStats, SentWindow, SentWindowRing, apply_loss_report, push,
}

-- `except ValueError`, which also catches its subclass ProbeDecodeError: the result is dropped.
abbrev pub catch_value_error {ℓ} : {A : Type ℓ} → Result A → Result (Option A)
catch_value_error (ok a) = ok (some a)
catch_value_error (raise value_error) = ok none
catch_value_error (raise probe_decode_error) = ok none
catch_value_error (raise e) = raise e

-- `except ProbeDecodeError`
abbrev pub catch_decode_error {ℓ} : {A : Type ℓ} → Result A → Result (Option A)
catch_decode_error (ok a) = ok (some a)
catch_decode_error (raise probe_decode_error) = ok none
catch_decode_error (raise e) = raise e

pub record SenderAgent (F : Type 0) : Type 0 where
  pub num_planes : ℕ
  pub tenant : String
  pub tenant_id : ℕ
  pub src_id : ℕ
  pub report_port : ℕ
  pub max_window_skew_ns : ℕ
  pub table : EvStateTable F
  pub probe_clock : ProbeClock
  pub sent_ring : SentWindowRing
  pub stats : LossFusionStats
  pub current_window_sent : List ℕ
  pub current_window_start_ns : ℕ
  pub current_window_id : ℕ

-- `any(s > 0 for s in sent)`
unfoldable pub any_positive : List ℕ → Bool
any_positive [] = false
any_positive (n ∷ ns) = ltb 0 n || any_positive ns

module _ {F : Type 0} where
  -- A plane out of range is dropped.
  unfoldable pub record_sent : SenderAgent F → ℕ → SenderAgent F
  record_sent a plane = elim (get_elem? a.current_window_sent plane) [
    | none ↦ a
    | some n ↦ record a { current_window_sent = set a.current_window_sent plane (n + 1) }
  ]

  -- `_rotate_window`
  unfoldable pub rotate_window : SenderAgent F → ℕ → Result (SenderAgent F)
  rotate_window a now_ns =
      let closed : SentWindow = record {
        start_ns = a.current_window_start_ns;
        end_ns = now_ns;
        sent = a.current_window_sent;
        window_id = a.current_window_id;
      } in
      let a' = record a {
        current_window_sent = replicate a.num_planes 0;
        current_window_start_ns = now_ns;
        current_window_id = (a.current_window_id + 1) % 0x10000;
      } in
      if any_positive a.current_window_sent
      then (do ring ← push a.sent_ring closed; ok (record a' { sent_ring = ring }))
      else ok a'

  -- The body of the loop over the planes in `_emit_loop`: the payload to send on the plane.
  unfoldable pub probe_plane : SenderAgent F → ℕ → ℕ → Result (SenderAgent F × Option (List ℕ))
  probe_plane a plane now_ns = do
    (clock, req_id, tx_ns) ← emit a.probe_clock plane now_ns
    payload ← catch_value_error (
        encode_probe (record {
          req_id = req_id;
          plane_id = plane;
          tx_ns = tx_ns;
          tenant_id = a.tenant_id;
          src_id = a.src_id;
          reply_port = a.report_port;
        }))
    ok (record a { probe_clock = clock }, payload)

module _ (fl : Floats) where
  open fl use {Float}

  -- The loop over the timeouts in `_sweep_loop`.
  unfoldable pub record_timeouts :
      EvStateTable Float → String → List (ℕ × ℕ) → Result (EvStateTable Float)
  record_timeouts t tenant [] = ok t
  record_timeouts t tenant ((plane, req_id) ∷ rest) = do
    t' ← record_probe_result fl t tenant plane timeout
    record_timeouts t' tenant rest

  -- A turn of `_sweep_loop`.
  unfoldable pub sweep : SenderAgent Float → ℕ → Result (SenderAgent Float)
  sweep a now_ns = do
    let swept = sweep_timeouts a.probe_clock now_ns
    t ← record_timeouts a.table a.tenant swept.1
    ok (record a { probe_clock = swept.0; table = t })

  -- `_reply_rx_loop` once the clock has looked at the reply.
  unfoldable pub record_reply :
      SenderAgent Float → ℕ → ProbeClock × Option ℤ → Result (SenderAgent Float)
  record_reply a plane (clock, none) = ok (record a { probe_clock = clock })
  record_reply a plane (clock, some rtt_ns) = do
    t ← record_probe_result fl a.table a.tenant plane (success (some rtt_ns))
    ok (record a { probe_clock = clock; table = t })

  unfoldable pub handle_reply :
      SenderAgent Float → Option ProbeReply → ℕ → Result (SenderAgent Float)
  handle_reply a none now_ns = ok a
  handle_reply a (some reply) now_ns = do
    matched ← match_reply a.probe_clock reply.req_id reply.plane_id reply.tx_ns now_ns
    record_reply a reply.plane_id matched

  -- A turn of `_reply_rx_loop` on a datagram.
  unfoldable pub on_reply : SenderAgent Float → List ℕ → ℕ → Result (SenderAgent Float)
  on_reply a payload now_ns = do
    reply ← catch_decode_error (decode_probe_reply payload)
    handle_reply a reply now_ns

  unfoldable pub handle_report :
      SenderAgent Float → Result (Option LossReport) → ℕ → SenderAgent Float × Option Error
  handle_report a (raise e) now_ns = (a, some e)
  handle_report a (ok none) now_ns = (a, none)
  handle_report a (ok (some report)) now_ns =
      let ((t, stats), error) =
        apply_loss_report fl a.tenant report a.sent_ring now_ns a.max_window_skew_ns
          (a.table, a.stats) in
      (record a { table = t; stats = stats }, error)

  -- A turn of `_report_rx_loop` on a datagram.
  unfoldable pub on_report : SenderAgent Float → List ℕ → ℕ → SenderAgent Float × Option Error
  on_report a payload now_ns =
      handle_report a (catch_decode_error (decode_loss_report payload)) now_ns
