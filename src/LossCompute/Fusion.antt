-- ===== src/LossCompute/Fusion.antt =====
-- What a loss report does to the EV table (loss_compute.py, `apply_loss_report`).
use srv6_ai_fabric.Prelude.{
  ◌⊎◌, ◌≤◌, All-get_elem?, ◌∙◌, ap, sym, All, true, false, ◌-◌, ◌+◌, ◌≡◌, ◌<◌, ◌≢◌, ◌∷◌, ◌==◌, ◌&&◌,
  List, Option, [], arith, get_elem?, inl, inr, length, none, ok, refl, some, ℕ, Bool-cases, ltb,
  if◌then◌else◌, String, String_eq, Bool, get_elem?_of_lt-length, not,
}
use srv6_ai_fabric.Prelude.Dict.{lookup, lookup-insert_self}
use srv6_ai_fabric.Prelude.Floats.{Floats}
use srv6_ai_fabric.EvState.{put_tenant, loss_window, EvStateTable, record_loss_window}
use srv6_ai_fabric.EvState.Safety.{check_plane-cases}
use srv6_ai_fabric.EvState.Table.{
  idle, at, plane_of, TableStep-SameShape, TableStep-IsValid, run, Event, loss, IsValid, handle,
  handle-TableStep, run-step, tenant_of,
}
use srv6_ai_fabric.Wire.Reports.{LossReport, PlaneLossRecord}
use srv6_ai_fabric.LossCompute.Rings.{find_closest_lem}
use srv6_ai_fabric.LossCompute.{
  skew, find_closest, SentWindowRing, count_report, apply_paired, apply_loss_report, count_plane,
  apply_records, LossFusionStats, Fused, apply_record, skip_plane, update_plane, SentWindow,
  sender_sent,
}

-- What the sender counted on a plane in the paired window, if there is one.
unfoldable pub sent_on : Option SentWindow → ℕ → ℕ
sent_on none plane = 0
sent_on (some w) plane = elim (get_elem? w.sent plane) [ none ↦ 0 | some n ↦ n ]

-- The number of packets that a record's loss is measured against.
abbrev pub basis : Option SentWindow → PlaneLossRecord → ℕ
basis paired rec =
    if ltb 0 (sent_on paired rec.plane_id) then sent_on paired rec.plane_id else rec.expected

-- The record says something: it is not empty, and there is something to measure it against.
abbrev pub tells : Option SentWindow → PlaneLossRecord → Bool
tells paired rec = not ((rec.seen == 0) && (rec.expected == 0)) && not (basis paired rec == 0)

-- The calls of `record_loss_window` that a report stands for.
unfoldable pub loss_events : String → Option SentWindow → List PlaneLossRecord → List Event
loss_events tenant paired [] = []
loss_events tenant paired (rec ∷ recs) =
    let rest = loss_events tenant paired recs in
    if tells paired rec then loss tenant rec.plane_id rec.seen (basis paired rec) ∷ rest else rest

-- The paired window has a counter for each of `n` planes.
unfoldable pub CoversPlanes : ℕ → Option SentWindow → Type 0
CoversPlanes n none = Unit
CoversPlanes n (some w) = length w.sent ≡ n

sender_sent-sent_on :
    (n : ℕ) (paired : Option SentWindow) (plane : ℕ)
    → CoversPlanes n paired
    → plane < n
    → sender_sent paired plane ≡ ok (sent_on paired plane)
unfolding sender_sent sent_on CoversPlanes
sender_sent-sent_on n none plane c h = refl
sender_sent-sent_on n (some w) plane c h =
    let (k, here) = get_elem?_of_lt-length w.sent plane (omega arith) in ground arith

module _ (fl : Floats) where
  open fl use {Float, ratio}

  -- A call keeps the tenants that there are.
  handle-there :
      (t t' : EvStateTable Float) (e : Event)
      → handle fl t e ≡ ok t'
      → lookup (tenant_of e) t.by_tenant ≢ none
      → lookup (tenant_of e) t'.by_tenant ≢ none
  handle-there t t' e h there = elim (handle-TableStep fl t e h) [
    | idle same ↦ rw same there
    | at s rec s' found inside place step put ↦
        rw (put, lookup-insert_self (tenant_of e) s' t.by_tenant) (λ q. cc)
  ]

  -- A known tenant's plane takes any loss window.
  record_loss_window_total :
      (t : EvStateTable Float) (tenant : String) (plane seen expected : ℕ)
      → IsValid fl t
      → lookup tenant t.by_tenant ≢ none
      → plane < t.num_planes
      → (t' : EvStateTable Float) × (record_loss_window fl t tenant plane seen expected ≡ ok t')
  unfolding record_loss_window
  record_loss_window_total t tenant plane seen expected v there inside =
      elim (check_plane-cases fl t tenant plane v) [
        | inl (inl missing, e) ↦ absurd (there missing)
        | inl (inr outside, e) ↦ absurd (ground arith)
        | inr (_, _, (s, rec), e) ↦ elim (Bool-cases (expected == 0)) [
          | inl empty ↦ (t, rw (e, empty) refl)
          | inr some_sent ↦ (
            put_tenant fl t tenant (
                loss_window fl t plane
                  (ratio (expected - (if ltb expected seen then expected else seen)) expected) rec
                  s),
            rw (e, some_sent) refl,
          )
        ]
      ]

  -- What the statistics have counted so far.
  abbrev handled : LossFusionStats → ℕ
  handled st = st.planes_updated + st.planes_skipped_no_data

  abbrev measured : LossFusionStats → ℕ
  measured st = st.paired_with_sent_window + st.fell_back_to_receiver_expected

  -- `stats'` counts `n` records more, each as updated, by one of the two measures, or as skipped.
  abbrev pub Accounts : LossFusionStats → ℕ → LossFusionStats → Type 0
  Accounts stats n stats' =
      (handled stats' ≡ handled stats + n)
      × (measured stats' + stats.planes_updated ≡ measured stats + stats'.planes_updated)

  -- What the tables of a run need.
  pub record IsReady (t : EvStateTable Float) (tenant : String) (n : ℕ) : Type 0 where
    pub valid : IsValid fl t
    pub there : lookup tenant t.by_tenant ≢ none
    pub planes : t.num_planes ≡ n

  apply_record-silent :
      (tenant : String) (paired : Option SentWindow) (rec : PlaneLossRecord) (n : ℕ) (f : Fused fl)
      → CoversPlanes n paired
      → rec.plane_id < n
      → tells paired rec ≡ false
      → apply_record fl tenant paired rec f ≡ ok (skip_plane fl f)
  unfolding apply_record
  apply_record-silent tenant paired rec n f c inside h =
      rw (sender_sent-sent_on n paired rec.plane_id c inside) (ground arith)

  apply_record-telling :
      (tenant : String) (paired : Option SentWindow) (rec : PlaneLossRecord) (n : ℕ) (f : Fused fl)
      → CoversPlanes n paired
      → rec.plane_id < n
      → tells paired rec ≡ true
      → apply_record fl tenant paired rec f
        ≡ update_plane fl tenant rec (sent_on paired rec.plane_id) f
  unfolding apply_record
  apply_record-telling tenant paired rec n f c inside h =
      rw (sender_sent-sent_on n paired rec.plane_id c inside) (ground arith)

  -- The table and the statistics after a record that tells something.
  update_plane-ok :
      (tenant : String) (paired : Option SentWindow) (rec : PlaneLossRecord)
      (t t' : EvStateTable Float) (stats : LossFusionStats)
      → record_loss_window fl t tenant rec.plane_id rec.seen (basis paired rec) ≡ ok t'
      → (stats' : LossFusionStats) × (update_plane fl tenant rec
            (sent_on paired rec.plane_id)
            (t, stats)
          ≡ ok (t', stats'))
        × Accounts stats 1 stats'
  unfolding update_plane
  update_plane-ok tenant paired rec t t' stats h =
      elim (Bool-cases (ltb 0 (sent_on paired rec.plane_id))) [
        | inl more ↦ (
          count_plane (sent_on paired rec.plane_id) stats,
          rw h refl,
          (ground arith, ground arith),
        )
        | inr less ↦ (
          count_plane (sent_on paired rec.plane_id) stats,
          rw h refl,
          (ground arith, ground arith),
        )
      ]

  handle-IsReady :
      (t t' : EvStateTable Float) (e : Event) (n : ℕ)
      → handle fl t e ≡ ok t'
      → IsReady t (tenant_of e) n
      → IsReady t' (tenant_of e) n
  handle-IsReady t t' e n h r =
      let step = handle-TableStep fl t e h in
      let same = TableStep-SameShape fl t (tenant_of e) (plane_of e) step in
      record {
        valid = TableStep-IsValid fl t (tenant_of e) (plane_of e) step r.valid;
        there = handle-there t t' e h r.there;
        planes = same.same_num_planes ∙ r.planes;
      }

  apply_records-next :
      (tenant : String) (paired : Option SentWindow) (rec : PlaneLossRecord)
      (recs : List PlaneLossRecord) (f f' : Fused fl)
      → apply_record fl tenant paired rec f ≡ ok f'
      → apply_records fl tenant paired (rec ∷ recs) f ≡ apply_records fl tenant paired recs f'
  unfolding apply_records
  apply_records-next tenant paired rec recs f f' h = rw (h, apply_records) refl

  apply_records-run :
      (tenant : String) (paired : Option SentWindow) (n : ℕ) (recs : List PlaneLossRecord)
      (t : EvStateTable Float) (stats : LossFusionStats)
      → CoversPlanes n paired
      → IsReady t tenant n
      → All (λ (r : PlaneLossRecord). r.plane_id < n) recs
      → (stats' : LossFusionStats) × (apply_records fl tenant paired recs (t, stats)
          ≡ ((run fl t (loss_events tenant paired recs), stats'), none))
        × Accounts stats (length recs) stats'
  unfolding apply_records loss_events run handle
  apply_records-run tenant paired n [] t stats c ready inside =
      (stats, refl, (omega arith, omega arith))
  apply_records-run tenant paired n (rec ∷ recs) t stats c ready inside =
      elim (Bool-cases (tells paired rec)) [
        | inl telling ↦
            let (t', done) =
              record_loss_window_total t tenant rec.plane_id rec.seen (basis paired rec) ready.valid
                ready.there (omega (arith, inside.0, ready.planes)) in
            let (stats₁, upd, (h₁, m₁)) = update_plane-ok tenant paired rec t t' stats done in
            let e = loss tenant rec.plane_id rec.seen (basis paired rec) in
            let (stats', rest, (h₂, m₂)) =
              apply_records-run tenant paired n recs t' stats₁ c
                (handle-IsReady t t' e n done ready) inside.1 in
            let now =
              apply_record-telling tenant paired rec n (t, stats) c inside.0 telling ∙ upd in
            let ran = run-step fl t e (loss_events tenant paired recs) done in
            (
              stats',
              apply_records-next tenant paired rec recs (t, stats) (t', stats₁) now
                  ∙ rest
                  ∙ ap (λ q. ((q, stats'), none)) (rw telling (sym ran)),
              (omega arith, omega arith),
            )
        | inr silent ↦
            let skipped = (skip_plane fl (t, stats)).1 in
            let (stats', rest, (h₂, m₂)) =
              apply_records-run tenant paired n recs t skipped c ready inside.1 in
            let now = apply_record-silent tenant paired rec n (t, stats) c inside.0 silent in
            (
              stats',
              apply_records-next tenant paired rec recs (t, stats) (t, skipped) now
                  ∙ rest
                  ∙ ap (λ q. ((q, stats'), none)) (rw silent refl),
              (omega arith, omega arith),
            )
      ]

  -- A report that the sender can take: the tenant is known, the planes of the records are the
  -- fabric's, and the ring's windows have a counter for each plane. The report is then the calls of
  -- `record_loss_window` for its records in order, each measured against the sender's own count for
  -- the plane in the paired window or, where that is missing or 0, against the receiver's; records
  -- without data are left out, and of several records for one plane each is a call. Nothing is raised, and every record is counted, as updated, by one of
  -- the two measures, or as skipped.
  pub apply_loss_report-run :
      (tenant : String) (report : LossReport) (r : SentWindowRing) (now max_skew : ℕ)
      (t : EvStateTable Float) (stats : LossFusionStats)
      → IsReady t tenant r.num_planes
      → All (λ (w : SentWindow). length w.sent ≡ r.num_planes) r.ring
      → All (λ (q : PlaneLossRecord). q.plane_id < r.num_planes) report.planes
      → (stats' : LossFusionStats) × (apply_loss_report fl tenant report r now max_skew (t, stats)
          ≡ (
            (run fl t (loss_events tenant (find_closest r now max_skew) report.planes), stats'),
            none,
          ))
        × Accounts stats (length report.planes) stats'
  unfolding apply_loss_report CoversPlanes apply_paired count_report loss_events run
  apply_loss_report-run tenant report r now max_skew t stats ready covers inside =
      go (find_closest r now max_skew) report.planes
        (paired_covers (find_closest_lem r now max_skew)) inside
    where
      paired_covers :
          {o : Option SentWindow}
          → ((o ≡ none) × All (λ w. max_skew < skew now w) r.ring)
            ⊎ ((w : SentWindow) × (i : ℕ) × (o ≡ some w)
                × (get_elem? r.ring i ≡ some w)
                × (skew now w ≤ max_skew)
                × All (λ v. skew now w ≤ skew now v) r.ring)
          → CoversPlanes r.num_planes o
      paired_covers (inl (e, _)) = rw e tt
      paired_covers (inr (w, i, e, here, _, _)) = rw e (All-get_elem? _ r.ring i covers here)

      go :
          (paired : Option SentWindow) (recs : List PlaneLossRecord)
          → CoversPlanes r.num_planes paired
          → All (λ (q : PlaneLossRecord). q.plane_id < r.num_planes) recs
          → (stats' : LossFusionStats) × (apply_paired fl tenant paired recs (t, stats)
              ≡ ((run fl t (loss_events tenant paired recs), stats'), none))
            × Accounts stats (length recs) stats'
      go paired [] c inside = (stats, refl, (omega arith, omega arith))
      go none (q ∷ qs) c inside =
          let (stats', e, a) =
            apply_records-run tenant none r.num_planes (q ∷ qs) t (count_report none stats) c ready
              inside in
          (stats', e, a)
      go (some w) (q ∷ qs) c inside =
          let (stats', e, a) =
            apply_records-run tenant (some w) r.num_planes (q ∷ qs) t (count_report (some w) stats)
              c ready inside in
          (stats', e, a)
