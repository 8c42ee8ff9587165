-- ===== src/LossWindow/Windows.antt =====
-- A window from its first packet to its report (loss_window.py, `record`, `snapshot_and_reset`).
use srv6_ai_fabric.Prelude.{
  Eq, List, Result, [], ap, arith, get_elem?, if◌then◌else◌, length, min, ok, refl, replicate, set,
  some, suc, zero, ℕ, ◌+◌, ◌<◌, ◌==◌, ◌>>=◌, ◌∷◌, ◌≡◌, ◌≤◌, >>=-eq-ok, guard, index_error, leb, ltb,
  ok-injective, require, require-ok, subst, sym, value_error, ◌%◌, ◌∙◌, length-replicate, le→leb,
  Option, ◌-◌,
}
use srv6_ai_fabric.LossWindow.{
  FlowWindow, LossWindowTable, PlaneCounters, count_packet, flow_window, no_packets, record_packet,
  span, u32_max, window_records, snapshot_and_reset, reset,
}
use srv6_ai_fabric.LossWindow.Counters.{count_all, count_all_lem, largest_gap, maximum, minimum}
use srv6_ai_fabric.Prelude.Dict.{insert, lookup-insert_self}
use srv6_ai_fabric.Wire.Reports.{PlaneLossRecord, make_record, make_report}

-- The sequence numbers that arrived on a plane, in order.
unfoldable pub seqs_on : ℕ → List (ℕ × ℕ) → List ℕ
seqs_on plane [] = []
seqs_on plane ((p, s) ∷ ps) = if p == plane then s ∷ seqs_on plane ps else seqs_on plane ps

-- How many sequence numbers there are from the least to the greatest.
abbrev pub extent : Option ℕ → Option ℕ → ℕ
extent (some lo) (some hi) = hi + 1 - lo
extent _ _ = 0

-- The record that a report must have for the packets of one plane.
abbrev pub plane_record : ℕ → List ℕ → PlaneLossRecord
plane_record i ss = record {
  plane_id = i;
  seen = min (length ss) u32_max;
  expected = min (extent (minimum ss) (maximum ss)) u32_max;
  max_gap = min (largest_gap ss) u32_max;
}

-- The records of a report on the packets `ps`, for `n` planes from `i` on: silent planes have none.
unfoldable pub plane_records : ℕ → ℕ → List (ℕ × ℕ) → List PlaneLossRecord
plane_records zero i ps = []
plane_records (suc n) i ps =
    let rest = plane_records n (suc i) ps in
    if length (seqs_on i ps) == 0 then rest else plane_record i (seqs_on i ps) ∷ rest

accumulate : ℕ → List PlaneCounters → List (ℕ × ℕ) → List PlaneCounters
accumulate i [] ps = []
accumulate i (c ∷ cs) ps = count_all c (seqs_on i ps) ∷ accumulate (suc i) cs ps

accumulate-nil : (i : ℕ) (cs : List PlaneCounters) → accumulate i cs [] ≡ cs
unfolding accumulate seqs_on
accumulate-nil i [] = refl
accumulate-nil i (c ∷ cs) = ap (◌∷◌ c) (accumulate-nil (suc i) cs)

accumulate_past :
    (i plane seq : ℕ) (cs : List PlaneCounters) (ps : List (ℕ × ℕ))
    → plane < i
    → accumulate i cs ((plane, seq) ∷ ps) ≡ accumulate i cs ps
unfolding accumulate seqs_on
accumulate_past i plane seq [] ps h = refl
accumulate_past i plane seq (c ∷ cs) ps h =
    ground (arith, accumulate_past (suc i) plane seq cs ps (omega arith))

accumulate-set :
    (i k plane seq : ℕ) (cs : List PlaneCounters) (c : PlaneCounters) (ps : List (ℕ × ℕ))
    → plane ≡ i + k
    → get_elem? cs k ≡ some c
    → accumulate i (set cs k (count_packet c seq)) ps ≡ accumulate i cs ((plane, seq) ∷ ps)
unfolding accumulate seqs_on
accumulate-set i k plane seq [] c ps e h = cc
accumulate-set i zero plane seq (d ∷ cs) c ps e h =
    ground (arith, accumulate_past (suc i) plane seq cs ps (omega arith))
accumulate-set i (suc k) plane seq (d ∷ cs) c ps e h =
    ground (arith, accumulate-set (suc i) k plane seq cs c ps (omega arith) h)

unfoldable pub records_of : ℕ → List PlaneCounters → List PlaneLossRecord
records_of i [] = []
records_of i (c ∷ cs) =
    let rest = records_of (suc i) cs in
    if c.seen == 0
    then rest
    else record {
      plane_id = i;
      seen = min c.seen u32_max;
      expected = min (span c.min_seq c.max_seq) u32_max;
      max_gap = min c.max_gap u32_max;
    }
      ∷ rest

-- With at most 256 planes every record can be made.
pub window_records-records_of :
    (i : ℕ) (cs : List PlaneCounters)
    → i + length cs ≤ 256
    → window_records i cs ≡ ok (records_of i cs)
unfolding window_records records_of make_record
window_records-records_of i [] h = refl
window_records-records_of i (c ∷ cs) h =
    ground (arith, window_records-records_of (suc i) cs (omega arith))

records_of-accumulate :
    (n i : ℕ) (ps : List (ℕ × ℕ))
    → records_of i (accumulate i (replicate n no_packets) ps) ≡ plane_records n i ps
unfolding records_of accumulate plane_records span
records_of-accumulate zero i ps = refl
records_of-accumulate (suc n) i ps =
    ground (arith, records_of-accumulate n (suc i) ps, count_all_lem (seqs_on i ps))

length-accumulate :
    (i : ℕ) (cs : List PlaneCounters) (ps : List (ℕ × ℕ)) → length (accumulate i cs ps) ≡ length cs
unfolding accumulate
length-accumulate i [] ps = refl
length-accumulate i (c ∷ cs) ps = ap suc (length-accumulate (suc i) cs ps)

module _ {K : Type 0} ⦃e : Eq K⦄ where
  -- Recording packets of one flow, in order of arrival.
  unfoldable pub record_all : LossWindowTable K → K → List (ℕ × ℕ) → Result (LossWindowTable K)
  record_all t key [] = ok t
  record_all t key ((plane, seq) ∷ ps) = do t' ← record_packet t key plane seq; record_all t' key ps

  record Recorded (t t' : LossWindowTable K) (key : K) (ps : List (ℕ × ℕ)) : Type 0 where
    counted : (flow_window t' key).planes ≡ accumulate 0 (flow_window t key).planes ps
    same_id : (flow_window t' key).next_window_id ≡ (flow_window t key).next_window_id
    same_planes : t'.num_planes ≡ t.num_planes

  pub flow_window-insert :
      (t : LossWindowTable K) (key : K) (flow : FlowWindow)
      → flow_window (record t { flows = insert key flow t.flows }) key ≡ flow
  unfolding flow_window
  flow_window-insert t key flow = rw (lookup-insert_self key flow t.flows, flow_window) refl

  pub record_packet-ok :
      (t : LossWindowTable K) (key : K) (plane seq : ℕ) {t' : LossWindowTable K}
      → record_packet t key plane seq ≡ ok t'
      → (c : PlaneCounters) × (get_elem? (flow_window t key).planes plane ≡ some c)
        × (t' ≡ record t {
          flows =
              insert key
                (record (flow_window t key) {
                  planes = set (flow_window t key).planes plane (count_packet c seq);
                })
                t.flows;
        })
  unfolding record_packet
  record_packet-ok t key plane seq h =
      let (_, inside, r₁) = >>=-eq-ok (guard (ltb plane t.num_planes) value_error) _ h in
      let (_, u32, r₂) = >>=-eq-ok (guard (leb seq u32_max) value_error) _ r₁ in
      let (c, read, r₃) =
        >>=-eq-ok (require (get_elem? (flow_window t key).planes plane) index_error) _ r₂ in
      (c, require-ok _ _ read, sym (ok-injective _ _ r₃))

  record_all-Recorded :
      (t : LossWindowTable K) (key : K) (ps : List (ℕ × ℕ)) {t' : LossWindowTable K}
      → record_all t key ps ≡ ok t'
      → Recorded t t' key ps
  unfolding record_all
  record_all-Recorded t key [] h =
      subst (λ u. Recorded t u key []) (ok-injective _ _ h)
        (record { counted = sym (accumulate-nil 0 _); same_id = refl; same_planes = refl })
  record_all-Recorded t key ((plane, seq) ∷ ps) {t'} h =
      let (t₁, first, rest) = >>=-eq-ok (record_packet t key plane seq) _ h in
      let (c, read, e) = record_packet-ok t key plane seq first in
      let r = record_all-Recorded t₁ key ps rest in
      let flow = record (flow_window t key) {
        planes = set (flow_window t key).planes plane (count_packet c seq);
      } in
      let w : flow_window t₁ key ≡ flow =
        ap (λ u. flow_window u key) e ∙ flow_window-insert t key flow in
      record {
        counted =
            r.counted
            ∙ ap (λ (f : FlowWindow). accumulate 0 f.planes ps) w
            ∙ accumulate-set 0 plane plane seq (flow_window t key).planes c ps (omega arith) read;
        same_id = r.same_id ∙ ap (λ (f : FlowWindow). f.next_window_id) w;
        same_planes = r.same_planes ∙ ap (λ (u : LossWindowTable K). u.num_planes) e;
      }

  -- A flow that has no packet in its window yet, on a table of at most 256 planes.
  pub record IsFresh (t : LossWindowTable K) (key : K) : Type 0 where
    pub empty : (flow_window t key).planes ≡ replicate t.num_planes no_packets
    pub id_u16 : (flow_window t key).next_window_id < 0x10000
    pub few_planes : t.num_planes ≤ 256

  -- After the packets `ps` of a flow, from an empty window on, the report has the window's id and,
  -- in plane order, for every plane that got packets their number, how many sequence numbers
  -- there are from their least to their greatest, and the largest forward step, each capped to 32 bits; the flow is empty again, and its
  -- next id is one more, modulo 65536.
  pub snapshot-record_all :
      (t t' : LossWindowTable K) (key : K) (ps : List (ℕ × ℕ))
      → IsFresh t key
      → record_all t key ps ≡ ok t'
      → (t'' : LossWindowTable K) × (snapshot_and_reset t' key
          ≡ ok (
            t'',
            record {
              window_id = (flow_window t key).next_window_id;
              planes = plane_records t.num_planes 0 ps;
            },
          ))
        × IsFresh t'' key
        × ((flow_window t'' key).next_window_id
            ≡ ((flow_window t key).next_window_id + 1) % 0x10000)
  unfolding snapshot_and_reset make_report
  snapshot-record_all t t' key ps f h =
      let r = record_all-Recorded t key ps h in
      let np = t.num_planes in
      let held : (flow_window t' key).planes ≡ accumulate 0 (replicate np no_packets) ps =
        r.counted ∙ ap (λ cs. accumulate 0 cs ps) f.empty in
      let sized : 0 + length (accumulate 0 (replicate np no_packets) ps) ≤ 256 = omega (
        arith,
        length-accumulate 0 (replicate np no_packets) ps,
        length-replicate np no_packets,
        f.few_planes,
      ) in
      let made : window_records 0 (flow_window t' key).planes ≡ ok (plane_records np 0 ps) =
        ap (window_records 0) held
        ∙ window_records-records_of 0 (accumulate 0 (replicate np no_packets) ps) sized
        ∙ ap ok (records_of-accumulate np 0 ps) in
      let flow = reset t'.num_planes (record (flow_window t' key) {
        next_window_id = ((flow_window t' key).next_window_id + 1) % 0x10000;
      }) in
      let t'' = record t' { flows = insert key flow t'.flows } in
      let w : flow_window t'' key ≡ flow = flow_window-insert t' key flow in
      let next : (flow_window t'' key).next_window_id
          ≡ ((flow_window t key).next_window_id + 1) % 0x10000 =
        ap (λ (q : FlowWindow). q.next_window_id) w ∙ ap (λ n. (n + 1) % 0x10000) r.same_id in
      (
        t'',
        rw
            (
              made,
              r.same_id,
              le→leb (flow_window t key).next_window_id 0xffff (omega (arith, f.id_u16)),
            )
            refl,
        record {
          empty = ap (λ (q : FlowWindow). q.planes) w;
          id_u16 = omega arith;
          few_planes = omega (arith, r.same_planes, f.few_planes);
        },
        next,
      )
