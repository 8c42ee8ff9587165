-- ===== src/ProbeClock.antt =====
-- srv6_fabric/mrc/probe_clock.py: outstanding probes and their timeouts. A `PlaneClock` holds what
-- the source keeps for one plane in the lists `_next_req_id`, `_outstanding`, `_emit_count`,
-- `_reply_count` and `_timeout_count`. Times are counts of nanoseconds of a monotonic clock.
pub mod Planes
pub mod Runs
pub mod Sweep
pub mod Matches
pub mod Places
pub mod Flights
pub mod Emissions
use srv6_ai_fabric.Prelude.{
  ℕ_eq, Bool, List, Option, Result, [], get_elem?, guard, if◌then◌else◌, index_error, leb, length,
  ltb, none, ok, replicate, require, set, some, suc, value_error, ℕ, ◌%◌, ◌++◌, ◌+◌, ◌==◌, ◌>>=◌,
  ◌>>◌, ◌∷◌,
}
use srv6_ai_fabric.Prelude.Dict.{Dict, delete, insert, lookup}
use srv6_ai_fabric.Prelude.Int.{sub_ℕ, ℤ}

pub record OutstandingProbe : Type 0 where
  pub req_id : ℕ
  pub plane : ℕ
  pub tx_ns : ℕ

pub record PlaneClock : Type 0 where
  pub next_req_id : ℕ
  pub outstanding : Dict ℕ OutstandingProbe
  pub emit_count : ℕ
  pub reply_count : ℕ
  pub timeout_count : ℕ

pub record ProbeClock : Type 0 where
  pub num_planes : ℕ
  pub probe_timeout_ns : ℕ
  pub max_outstanding : ℕ
  pub planes : List PlaneClock
  pub stale_replies : ℕ

abbrev pub new_plane_clock : PlaneClock
new_plane_clock = record {
  next_req_id = 0;
  outstanding = [];
  emit_count = 0;
  reply_count = 0;
  timeout_count = 0;
}

-- `__init__`
unfoldable pub init : ℕ → ℕ → ℕ → Result ProbeClock
init num_planes probe_timeout_ns max_outstanding = do
  guard (ltb 0 num_planes) value_error
  guard (ltb 0 probe_timeout_ns) value_error
  guard (ltb 0 max_outstanding) value_error
  ok (record {
    num_planes = num_planes;
    probe_timeout_ns = probe_timeout_ns;
    max_outstanding = max_outstanding;
    planes = replicate num_planes new_plane_clock;
    stale_replies = 0;
  })

-- `_check_plane`, and the read of the plane's lists.
unfoldable pub plane_clock : ProbeClock → ℕ → Result PlaneClock
plane_clock c plane = do
  guard (ltb plane c.num_planes) value_error
  require (get_elem? c.planes plane) index_error

-- `del outstanding[next(iter(outstanding))]`, if the dict is full
unfoldable pub evict : ℕ → Dict ℕ OutstandingProbe → Dict ℕ OutstandingProbe
evict max_outstanding [] = []
evict max_outstanding (e ∷ es) = if leb max_outstanding (length (e ∷ es)) then es else e ∷ es

-- The body of `emit`.
unfoldable pub emit_plane : ℕ → ℕ → ℕ → PlaneClock → PlaneClock
emit_plane max_outstanding plane now_ns p = record p {
  next_req_id = (p.next_req_id + 1) % 0x10000;
  outstanding =
      insert p.next_req_id (record { req_id = p.next_req_id; plane = plane; tx_ns = now_ns })
        (evict max_outstanding p.outstanding);
  emit_count = p.emit_count + 1;
}

abbrev pub put_plane : ProbeClock → ℕ → PlaneClock → ProbeClock
put_plane c plane p = record c { planes = set c.planes plane p }

unfoldable pub emit : ProbeClock → ℕ → ℕ → Result (ProbeClock × ℕ × ℕ)
emit c plane now_ns = do
  p ← plane_clock c plane
  ok (put_plane c plane (emit_plane c.max_outstanding plane now_ns p), p.next_req_id, now_ns)

-- The outstanding probe that a reply belongs to: the same id on the same plane, sent at the time
-- that the reply echoes.
unfoldable pub matching : PlaneClock → ℕ → ℕ → Option OutstandingProbe
matching p req_id reply_tx_ns = elim (lookup req_id p.outstanding) [
  | none ↦ none
  | some entry ↦ if entry.tx_ns == reply_tx_ns then some entry else none
]

unfoldable pub match_plane :
    ProbeClock → ℕ → ℕ → ℕ → PlaneClock → Option OutstandingProbe → ProbeClock × Option ℤ
match_plane c plane req_id now_ns p none = (record c { stale_replies = c.stale_replies + 1 }, none)
match_plane c plane req_id now_ns p (some entry) = (
  put_plane c plane
      (record p { outstanding = delete req_id p.outstanding; reply_count = p.reply_count + 1 }),
  some (sub_ℕ now_ns entry.tx_ns),
)

-- `match_reply`: the round trip, or None for a stale reply.
unfoldable pub match_reply : ProbeClock → ℕ → ℕ → ℕ → ℕ → Result (ProbeClock × Option ℤ)
match_reply c req_id plane reply_tx_ns now_ns = do
  p ← plane_clock c plane
  ok (match_plane c plane req_id now_ns p (matching p req_id reply_tx_ns))

-- `entry.tx_ns <= now_ns - timeout`, on integers
abbrev pub expired : ℕ → ℕ → OutstandingProbe → Bool
expired timeout_ns now_ns entry = leb (entry.tx_ns + timeout_ns) now_ns

-- The inner loop of `sweep_timeouts`: it deletes the expired entries and reports them.
unfoldable pub sweep_plane :
    ℕ → ℕ → ℕ → Dict ℕ OutstandingProbe → Dict ℕ OutstandingProbe × List (ℕ × ℕ)
sweep_plane timeout_ns now_ns plane [] = ([], [])
sweep_plane timeout_ns now_ns plane ((req_id, entry) ∷ rest) =
    let (kept, gone) = sweep_plane timeout_ns now_ns plane rest in
    if expired timeout_ns now_ns entry
    then (kept, (plane, req_id) ∷ gone)
    else ((req_id, entry) ∷ kept, gone)

-- The outer loop, from plane `i` on.
unfoldable pub sweep_planes : ℕ → ℕ → ℕ → List PlaneClock → List PlaneClock × List (ℕ × ℕ)
sweep_planes timeout_ns now_ns i [] = ([], [])
sweep_planes timeout_ns now_ns i (p ∷ ps) =
    let (kept, gone) = sweep_plane timeout_ns now_ns i p.outstanding in
    let (ps', more) = sweep_planes timeout_ns now_ns (suc i) ps in
    (
      record p { outstanding = kept; timeout_count = p.timeout_count + length gone } ∷ ps',
      gone ++ more,
    )

unfoldable pub sweep_timeouts : ProbeClock → ℕ → ProbeClock × List (ℕ × ℕ)
sweep_timeouts c now_ns =
    let (planes', timed_out) = sweep_planes c.probe_timeout_ns now_ns 0 c.planes in
    (record c { planes = planes' }, timed_out)

unfoldable pub outstanding : ProbeClock → ℕ → Result ℕ
outstanding c plane = do p ← plane_clock c plane; ok (length p.outstanding)
