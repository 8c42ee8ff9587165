-- ===== src/LossWindow.antt =====
-- srv6_fabric/mrc/loss_window.py: data packets counted per flow and plane, in windows. A sequence
-- number that the source marks as not seen by -1 is `none`. The flow key is any type with a
-- Boolean equality. The lock is left out: the source runs each method under it as one step.
pub mod Counters
pub mod Windows
pub mod Emission
pub mod Closed
use srv6_ai_fabric.Wire.Reports.{PlaneLossRecord, LossReport, make_record, make_report}
use srv6_ai_fabric.Prelude.{
  Eq, List, Option, Result, [], get_elem?, guard, if◌then◌else◌, index_error, leb, ltb, min, none,
  ok, replicate, require, set, some, suc, value_error, ℕ, ◌%◌, ◌+◌, ◌-◌, ◌==◌, ◌>>=◌, ◌>>◌, ◌∷◌,
}
use srv6_ai_fabric.Prelude.Dict.{Dict, delete, insert, keys, lookup}

pub record PlaneCounters : Type 0 where
  pub seen : ℕ
  pub min_seq : Option ℕ
  pub max_seq : Option ℕ
  pub max_gap : ℕ
  pub last_seq : Option ℕ

abbrev pub no_packets : PlaneCounters
no_packets = record { seen = 0; min_seq = none; max_seq = none; max_gap = 0; last_seq = none }

pub record FlowWindow : Type 0 where
  pub next_window_id : ℕ
  pub planes : List PlaneCounters

pub record LossWindowTable (K : Type 0) : Type 0 where
  pub num_planes : ℕ
  pub flows : Dict K FlowWindow

-- `reset`: the window id stays.
abbrev pub reset : ℕ → FlowWindow → FlowWindow
reset num_planes flow = record flow { planes = replicate num_planes no_packets }

abbrev pub new_flow : ℕ → FlowWindow
new_flow num_planes = record { next_window_id = 0; planes = replicate num_planes no_packets }

-- The gap between integers is negative when the packet is late, and then no more than `max_gap`;
-- on natural numbers it is 0.
unfoldable pub wider_gap : Option ℕ → ℕ → ℕ → ℕ
wider_gap none seq max_gap = max_gap
wider_gap (some last) seq max_gap = if ltb max_gap (seq - last) then seq - last else max_gap

unfoldable pub lower : Option ℕ → ℕ → Option ℕ
lower none seq = some seq
lower (some lo) seq = if ltb seq lo then some seq else some lo

unfoldable pub higher : Option ℕ → ℕ → Option ℕ
higher none seq = some seq
higher (some hi) seq = if ltb hi seq then some seq else some hi

-- What `record` does to the counters of the packet's plane.
unfoldable pub count_packet : PlaneCounters → ℕ → PlaneCounters
count_packet c seq = record {
  seen = c.seen + 1;
  min_seq = lower c.min_seq seq;
  max_seq = higher c.max_seq seq;
  max_gap = wider_gap c.last_seq seq c.max_gap;
  last_seq = some seq;
}

-- `expected_local`
unfoldable pub span : Option ℕ → Option ℕ → ℕ
span (some lo) (some hi) = hi + 1 - lo
span _ _ = 0

abbrev pub u32_max : ℕ
u32_max = 0xffff_ffff

-- The loop of `snapshot_and_reset`, from plane `i` on.
unfoldable pub window_records : ℕ → List PlaneCounters → Result (List PlaneLossRecord)
window_records i [] = ok []
window_records i (c ∷ cs) = do
  rest ← window_records (suc i) cs
  if c.seen == 0 then ok rest else (do
    r ← make_record (record {
      plane_id = i;
      seen = min c.seen u32_max;
      expected = min (span c.min_seq c.max_seq) u32_max;
      max_gap = min c.max_gap u32_max;
    })
    ok (r ∷ rest))

module _ {K : Type 0} ⦃e : Eq K⦄ where
  unfoldable pub init : ℕ → Result (LossWindowTable K)
  init num_planes = do
    guard (ltb 0 num_planes) value_error
    ok (record { num_planes = num_planes; flows = [] })

  -- The flow's window, made on first use.
  unfoldable pub flow_window : LossWindowTable K → K → FlowWindow
  flow_window t key = elim (lookup key t.flows) [ none ↦ new_flow t.num_planes | some flow ↦ flow ]

  unfoldable pub record_packet : LossWindowTable K → K → ℕ → ℕ → Result (LossWindowTable K)
  record_packet t key plane seq = do
    guard (ltb plane t.num_planes) value_error
    guard (leb seq u32_max) value_error
    let flow = flow_window t key
    c ← require (get_elem? flow.planes plane) index_error
    ok (record t {
      flows =
          insert key (record flow { planes = set flow.planes plane (count_packet c seq) }) t.flows;
    })

  unfoldable pub snapshot_and_reset :
      LossWindowTable K → K → Result (LossWindowTable K × LossReport)
  snapshot_and_reset t key = do
    let flow = flow_window t key
    records ← window_records 0 flow.planes
    report ← make_report flow.next_window_id records
    ok (
      record t {
        flows =
            insert key
              (reset t.num_planes
                (record flow { next_window_id = (flow.next_window_id + 1) % 0x10000 }))
              t.flows;
      },
      report,
    )

  abbrev pub known_flows : LossWindowTable K → List K
  known_flows t = keys t.flows

  unfoldable pub forget : LossWindowTable K → K → LossWindowTable K
  forget t key = record t { flows = delete key t.flows }
