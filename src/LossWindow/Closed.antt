-- ===== src/LossWindow/Closed.antt =====
-- The invariant of LossWindowTable (loss_window.py): what every window has, and what closing one does.
use srv6_ai_fabric.Prelude.{
  All, Bool-cases, Eq, List, [], arith, inl, inr, length, ok, refl, replicate, suc, zero, ℕ, ◌∷◌,
  ◌≡◌, ◌≤◌, ◌+◌, ◌<◌, ◌%◌, if◌then◌else◌, length-replicate, length-set, le→leb, subst, sym, ◌==◌,
  ◌∙◌, >>=-eq-ok, guard, ltb, ok-injective, value_error,
}
use srv6_ai_fabric.Prelude.Dict.{lookup, insert, lookup-insert}
use srv6_ai_fabric.LossWindow.{
  FlowWindow, LossWindowTable, PlaneCounters, flow_window, init, no_packets, record_packet, reset,
  snapshot_and_reset,
}
use srv6_ai_fabric.LossWindow.Windows.{records_of, record_packet-ok, window_records-records_of}
use srv6_ai_fabric.Wire.Reports.{make_report}
use srv6_ai_fabric.Wire.ReportTrips.{IsWireRecord}

-- One window of counters for each plane, and a 16-bit id.
pub record IsWindow (num_planes : ℕ) (flow : FlowWindow) : Type 0 where
  pub sized : length flow.planes ≡ num_planes
  pub id_u16 : flow.next_window_id < 0x10000

pub records_of-wire :
    (i : ℕ) (cs : List PlaneCounters)
    → i + length cs ≤ 256
    → All IsWireRecord (records_of i cs) × (length (records_of i cs) ≤ length cs)
unfolding records_of
records_of-wire i [] h = (tt, omega arith)
records_of-wire i (c ∷ cs) h =
    let (wire, few) = records_of-wire (suc i) cs (omega arith) in
    elim (Bool-cases (c.seen == 0)) [
      | inl silent ↦ rw silent (wire, omega arith)
      | inr heard ↦ rw heard (
        (
          record {
            plane_id_u8 = omega arith;
            seen_u32 = omega arith;
            expected_u32 = omega arith;
            max_gap_u32 = omega arith;
          },
          wire,
        ),
        omega arith,
      )
    ]

pub records_of-quiet : (n i : ℕ) → records_of i (replicate n no_packets) ≡ []
unfolding records_of
records_of-quiet zero i = refl
records_of-quiet (suc n) i = records_of-quiet n (suc i)

module _ {K : Type 0} ⦃e : Eq K⦄ where
  pub record IsTable (t : LossWindowTable K) : Type 0 where
    pub few_planes : t.num_planes ≤ 256
    pub windows : (key : K) → IsWindow t.num_planes (flow_window t key)

  -- No packet of the flow is counted.
  abbrev pub IsQuiet : LossWindowTable K → K → Type 0
  IsQuiet t key = (flow_window t key).planes ≡ replicate t.num_planes no_packets

  pub flow_window-insert_at :
      (t : LossWindowTable K) (key j : K) (flow : FlowWindow)
      → flow_window (record t { flows = insert key flow t.flows }) j
        ≡ (if e.beq key j then flow else flow_window t j)
  unfolding flow_window
  flow_window-insert_at t key j flow = ground (arith, lookup-insert key j flow t.flows)

  -- Replacing a window by another keeps the invariant.
  pub IsTable-insert :
      (t : LossWindowTable K) (key : K) (flow : FlowWindow)
      → IsTable t
      → IsWindow t.num_planes flow
      → IsTable (record t { flows = insert key flow t.flows })
  IsTable-insert t key flow s w = record {
    few_planes = s.few_planes;
    windows = λ j. rw (flow_window-insert_at t key j flow) (elim (Bool-cases (e.beq key j)) [
      | inl here ↦ rw here w
      | inr away ↦ rw away (s.windows j)
    ]);
  }

  -- A new table has the invariant.
  pub init-IsTable :
      (num_planes : ℕ) {t : LossWindowTable K}
      → num_planes ≤ 256
      → init num_planes ≡ ok t
      → IsTable t
  unfolding init flow_window lookup
  init-IsTable num_planes few h =
      let (_, _, made) = >>=-eq-ok (guard (ltb 0 num_planes) value_error) _ h in
      subst IsTable (ok-injective _ _ made) (record {
        few_planes = few;
        windows =
            λ key. record { sized = length-replicate num_planes no_packets; id_u16 = omega arith };
      })

  -- Counting a packet keeps it.
  pub record_packet-IsTable :
      (t : LossWindowTable K) (key : K) (plane seq : ℕ) {t' : LossWindowTable K}
      → IsTable t
      → record_packet t key plane seq ≡ ok t'
      → IsTable t'
  record_packet-IsTable t key plane seq s h =
      let (c, read, e') = record_packet-ok t key plane seq h in
      subst IsTable (sym e') (
        IsTable-insert t key _ s (record {
          sized = length-set _ _ _ ∙ (s.windows key).sized;
          id_u16 = (s.windows key).id_u16;
        }))

  -- The window of the flow after it is closed.
  abbrev pub closed : LossWindowTable K → K → FlowWindow
  closed t key = reset t.num_planes (record (flow_window t key) {
    next_window_id = ((flow_window t key).next_window_id + 1) % 0x10000;
  })

  -- Closing a window never raises: the report has the window's id and records.
  pub snapshot_and_reset_total :
      (t : LossWindowTable K) (key : K)
      → IsTable t
      → snapshot_and_reset t key
        ≡ ok (
          record t { flows = insert key (closed t key) t.flows },
          record {
            window_id = (flow_window t key).next_window_id;
            planes = records_of 0 (flow_window t key).planes;
          },
        )
  unfolding snapshot_and_reset make_report
  snapshot_and_reset_total t key s =
      let w = s.windows key in
      rw
        (
          window_records-records_of 0 (flow_window t key).planes
              (omega (arith, w.sized, s.few_planes)),
          le→leb (flow_window t key).next_window_id 0xffff (omega (arith, w.id_u16)),
        )
        refl

  pub closed-IsTable :
      (t : LossWindowTable K) (key : K)
      → IsTable t
      → IsTable (record t { flows = insert key (closed t key) t.flows })
  closed-IsTable t key s =
      IsTable-insert t key _ s (record { sized = length-replicate _ _; id_u16 = omega arith })
