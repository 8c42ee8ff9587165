-- ===== src/Reorder.antt =====
-- srv6_fabric/reorder.py: the counters of one flow (`FlowStats`) and the tracker that keeps them by
-- the key of the flow (`ReorderTracker`). A set of sequence numbers is a list without repetition.
pub mod Counts
pub mod Gaps
pub mod Bins
pub mod Percentiles
pub mod Flows
use srv6_ai_fabric.Prelude.{
  Eq, ℕ_eq, ◌>>◌, ℕ, List, Bool, Option, Result, String, [], guard, if◌then◌else◌, leb, length, ltb,
  max, none, ok, some, true, value_error, ◌&&◌, ◌*◌, ◌+◌, ◌-◌, ◌==◌, ◌>>=◌, ◌∷◌, min,
}
use srv6_ai_fabric.Prelude.Dict.{Dict, insert, lookup}
use srv6_ai_fabric.Prelude.Int.{ℤ, pos, negsuc, sub_ℕ}
use srv6_ai_fabric.Prelude.Floats.{Floats}
use srv6_ai_fabric.Topo.{FlowKey, FlowKey_eq}
use srv6_ai_fabric.Policy.{mem}

pub record FlowStats : Type 0 where
  pub flow : FlowKey
  pub first_seq : Option ℕ
  pub last_seq_seen : ℤ
  pub received : ℕ
  pub duplicates : ℕ
  pub per_plane : Dict ℕ ℕ
  pub reorder_hist : Dict ℕ ℕ
  pub window : List ℕ
  pub window_cap : ℕ

-- `FlowStats(flow=flow)`
abbrev pub flow_stats : FlowKey → FlowStats
flow_stats flow = record {
  flow = flow;
  first_seq = none;
  last_seq_seen = negsuc 0;
  received = 0;
  duplicates = 0;
  per_plane = [];
  reorder_hist = [];
  window = [];
  window_cap = 4096;
}

module _ {K : Type 0} ⦃e : Eq K⦄ where
  -- `d.get(k, 0)`
  abbrev pub count_at : K → Dict K ℕ → ℕ
  count_at k d = elim (lookup k d) [ none ↦ 0 | some n ↦ n ]

  -- `d[k] = d.get(k, 0) + 1`
  unfoldable pub bump : K → Dict K ℕ → Dict K ℕ
  bump k d = insert k (count_at k d + 1) d

unfoldable pub bump_plane : Option ℕ → Dict ℕ ℕ → Dict ℕ ℕ
bump_plane none d = d
bump_plane (some plane) d = bump plane d

-- The least of a set that is not empty.
unfoldable pub smallest : ℕ → List ℕ → ℕ
smallest x [] = x
smallest x (y ∷ ys) = smallest (min x y) ys

-- `window.discard(x)`
unfoldable pub discard : ℕ → List ℕ → List ℕ
discard x [] = []
discard x (y ∷ ys) = if y == x then ys else y ∷ discard x ys

-- The window with a sequence number that is not in it; past the cap, without its least.
unfoldable pub add_to_window : ℕ → ℕ → List ℕ → List ℕ
add_to_window cap seq window =
    if ltb cap (length (seq ∷ window))
    then discard (smallest seq window) (seq ∷ window)
    else seq ∷ window

-- `seq > last_seq_seen`
abbrev pub above : ℕ → ℤ → Bool
above seq (pos last) = ltb last seq
above seq (negsuc n) = true

-- `last_seq_seen - seq`, where it is not negative
abbrev pub distance : ℤ → ℕ → ℕ
distance (pos last) seq = last - seq
distance (negsuc n) seq = 0

-- The part of `observe` below the test for a duplicate.
unfoldable pub observe_new : FlowStats → ℕ → Option ℕ → FlowStats
observe_new s seq plane =
    let counted = record s {
      window = add_to_window s.window_cap seq s.window;
      received = s.received + 1;
      per_plane = bump_plane plane s.per_plane;
    } in
    if above seq s.last_seq_seen
    then record counted { last_seq_seen = pos seq; reorder_hist = bump 0 s.reorder_hist }
    else record counted { reorder_hist = bump (distance s.last_seq_seen seq) s.reorder_hist }

abbrev pub or_first : Option ℕ → ℕ → ℕ
or_first none seq = seq
or_first (some first) seq = first

unfoldable pub observe : FlowStats → ℕ → Option ℕ → FlowStats
observe s seq plane =
    let started = record s { first_seq = some (or_first s.first_seq seq) } in
    if mem seq s.window
    then record started { duplicates = s.duplicates + 1 }
    else observe_new started seq plane

-- last_seq_seen - first + 1
abbrev pub seq_span : ℤ → ℕ → ℤ
seq_span (pos last) first = sub_ℕ (last + 1) first
seq_span (negsuc n) first = sub_ℕ 0 (n + first)

abbrev pub expected : FlowStats → ℤ
expected s = elim s.first_seq [ none ↦ pos 0 | some first ↦ seq_span s.last_seq_seen first ]

-- max(0, a - n)
abbrev pub excess : ℤ → ℕ → ℕ
excess (pos a) n = a - n
excess (negsuc a) n = 0

abbrev pub loss : FlowStats → ℕ
loss s = excess (expected s) s.received

-- The sum of the counts.
unfoldable pub total : {K : Type 0} → Dict K ℕ → ℕ
total [] = 0
total ((k, n) ∷ d) = n + total d

unfoldable pub greatest_key : Dict ℕ ℕ → ℕ
greatest_key [] = 0
greatest_key ((k, n) ∷ d) = max k (greatest_key d)

abbrev pub reorder_max : FlowStats → ℕ
reorder_max s = greatest_key s.reorder_hist

unfoldable pub weighted_total : Dict ℕ ℕ → ℕ
weighted_total [] = 0
weighted_total ((k, n) ∷ d) = k * n + weighted_total d

-- `sorted(d.items())`, by the key
unfoldable pub insert_item : ℕ × ℕ → Dict ℕ ℕ → Dict ℕ ℕ
insert_item e [] = e ∷ []
insert_item e (f ∷ d) = if leb (e.0) (f.0) then e ∷ f ∷ d else f ∷ insert_item e d

unfoldable pub sorted_items : Dict ℕ ℕ → Dict ℕ ℕ
sorted_items [] = []
sorted_items (e ∷ d) = insert_item e (sorted_items d)

-- What `to_dict` gives.
pub record FlowReport {ℓ} (Float : Type ℓ) : Type ℓ where
  pub src : String
  pub dst : String
  pub sport : ℕ
  pub dport : ℕ
  pub received : ℕ
  pub duplicates : ℕ
  pub first_seq : Option ℕ
  pub last_seq : Option ℤ
  pub expected : ℤ
  pub loss : ℕ
  pub per_plane_recv : Dict ℕ ℕ
  pub reorder_hist : Dict ℕ ℕ
  pub reorder_max : ℕ
  pub reorder_mean : Float
  pub reorder_p99 : ℕ

module _ (fl : Floats) where
  unfoldable pub reorder_mean : FlowStats → fl.Float
  reorder_mean s = elim s.reorder_hist [
    | [] ↦ fl.float_zero
    | _ ∷ _ ↦ fl.ratio (weighted_total s.reorder_hist) (total s.reorder_hist)
  ]

  -- The loop over the sorted bins, with `cum` what stands before them.
  unfoldable pub first_reaching : fl.Float → ℕ → ℕ → Dict ℕ ℕ → ℕ
  first_reaching target top cum [] = top
  first_reaching target top cum ((d, n) ∷ bins) =
      let rest = first_reaching target top (cum + n) bins in
      if fl.le target (fl.of_ℕ (cum + n)) then d else rest

  unfoldable pub percentile_of : Dict ℕ ℕ → fl.Float → Result ℕ
  percentile_of [] pct = ok 0
  percentile_of (e ∷ d) pct =
      let hist = e ∷ d in
      let target = fl.div (fl.mul (fl.of_ℕ (total hist)) pct) (fl.of_ℕ 100) in
      guard (fl.lt fl.float_zero pct && fl.le pct (fl.of_ℕ 100)) value_error
      >> ok (first_reaching target (greatest_key hist) 0 (sorted_items hist))

  abbrev pub reorder_percentile : FlowStats → fl.Float → Result ℕ
  reorder_percentile s pct = percentile_of s.reorder_hist pct

  -- `round3` is Python's `round` to three digits.
  unfoldable pub to_dict : (fl.Float → fl.Float) → FlowStats → Result (FlowReport fl.Float)
  to_dict round3 s = reorder_percentile s (fl.of_ℕ 99) >>= λ p99. ok (record {
    src = s.flow.src_addr;
    dst = s.flow.dst_addr;
    sport = s.flow.src_port;
    dport = s.flow.dst_port;
    received = s.received;
    duplicates = s.duplicates;
    first_seq = s.first_seq;
    last_seq = elim s.first_seq [ none ↦ none | some _ ↦ some s.last_seq_seen ];
    expected = expected s;
    loss = loss s;
    per_plane_recv = sorted_items s.per_plane;
    reorder_hist = sorted_items s.reorder_hist;
    reorder_max = reorder_max s;
    reorder_mean = round3 (reorder_mean s);
    reorder_p99 = p99;
  })

abbrev pub ReorderTracker : Type 0
ReorderTracker = Dict FlowKey FlowStats

-- The entry of a flow, new if there is none.
abbrev pub stats_or_new : FlowKey → Option FlowStats → FlowStats
stats_or_new flow none = flow_stats flow
stats_or_new flow (some st) = st

-- `ReorderTracker.observe`
unfoldable pub track : ReorderTracker → FlowKey → ℕ → Option ℕ → ReorderTracker
track flows flow seq plane =
    insert flow (observe (stats_or_new flow (lookup flow flows)) seq plane) flows
