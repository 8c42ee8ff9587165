-- ===== src/EvState/Safety.antt =====
-- What the calls of the table can and cannot do (ev_state.py, `EVStateTable`).
use srv6_ai_fabric.Prelude.{
  String_eq, All, List, String, ap, arith, get_elem?, leb, length, none, ok, raise, some, true,
  value_error, ℕ, ◌+◌, ◌∙◌, ◌≡◌, ◌≢◌, ◌≤◌, ◌⊎◌, get_elem?-set_ne, get_elem?-set_self, inl, inr,
  lt-length_of_get_elem?, set, sym, subst, Bool-cases, Option-cases, get_elem?_of_lt-length, ltb,
  ltb→lt, ◌<◌,
}
use srv6_ai_fabric.EvState.{
  EvStateConfig, EvStateTable, Outcome, PlaneRecord, Tenant, Transition, assumed_bad, good, init,
  record_probe_result, resolve_min_active, success, timeout, usable_after, EvState, check_plane,
  probe_outcome, probe_success, probe_timeout, put_tenant,
}
use srv6_ai_fabric.EvState.Count.{usable}
use srv6_ai_fabric.EvState.Table.{
  Event, IsValid, handle, init-IsValid, plane_of, run, run-IsValid, run-SameShape, tenant_of, at,
  handle-TableStep, idle,
}
use srv6_ai_fabric.EvState.Invariant.{replay, resolve_min_active-le, states, total_transitions}
use native.Mathlib.Decide.{ℕ_discrete}
use srv6_ai_fabric.Prelude.Dict.{lookup, lookup-insert_self, lookup-insert_ne}
use srv6_ai_fabric.Prelude.Int.{negsuc, pos}
use srv6_ai_fabric.Prelude.Floats.{Floats}
use srv6_ai_fabric.EvState.Machine.{Step, demote, keep, promote}

-- A success with no round trip, or a negative one.
abbrev pub BadOutcome : Outcome → Type 0
BadOutcome (success none) = Unit
BadOutcome (success (some (negsuc n))) = Unit
BadOutcome (success (some (pos n))) = ⊥
BadOutcome timeout = ⊥

module _ (fl : Floats) where
  open fl use {Float}

  -- From a new table, after any calls, raising or not, every tenant has at least `min_active`
  -- planes that are not demoted, at least one, and one record for each plane.
  pub run-floor :
      (tenants : List String) (np : ℕ) (cfg : EvStateConfig Float) (es : List Event)
      (t : EvStateTable Float) (tenant : String) (s : Tenant Float)
      → init fl tenants np cfg ≡ ok t
      → lookup tenant (run fl t es).by_tenant ≡ some s
      → (length s.planes ≡ np) × (t.min_active ≤ usable s.planes) × (1 ≤ usable s.planes)
  unfolding init
  run-floor tenants np cfg es t tenant s h e =
      let i = run-IsValid fl t es (init-IsValid fl tenants np cfg h) tenant s e in
      let same = run-SameShape fl t es in
      let sizes : (leb 1 np ≡ true)
          × (t.num_planes ≡ np)
          × (t.min_active ≡ resolve_min_active cfg.min_active_planes np) =
        ground arith in
      let bounds = resolve_min_active-le cfg.min_active_planes np (ground arith) in
      (ground arith, ground arith, ground arith)

  -- From a new table, after any calls, the callback has been called exactly for real changes of
  -- state: replayed over UNKNOWN planes its calls give the states of the tenant, none of them has
  -- equal states, and there are as many of them as the records count transitions.
  pub run-callback :
      (tenants : List String) (np : ℕ) (cfg : EvStateConfig Float) (es : List Event)
      (t : EvStateTable Float) (tenant : String) (s : Tenant Float)
      → init fl tenants np cfg ≡ ok t
      → lookup tenant (run fl t es).by_tenant ≡ some s
      → (states s.planes ≡ replay np s.calls)
        × All (λ (c : Transition). c.old ≢ c.new) s.calls
        × (total_transitions s.planes ≡ length s.calls)
  unfolding init
  run-callback tenants np cfg es t tenant s h e =
      let i = run-IsValid fl t es (init-IsValid fl tenants np cfg h) tenant s e in
      let same = run-SameShape fl t es in
      let n : (run fl t es).num_planes ≡ np = ground arith in
      (i.told ∙ ap (λ k. replay k s.calls) n, i.real_changes, i.counted)

  abbrev pub Change : EvStateTable Float → ℕ → Tenant Float → PlaneRecord Float → EvState → Type 0
  Change t p s r st =
      ((st ≡ good)
        × (t.cfg.probe_recover_threshold ≤ r.consecutive_probe_successes + 1)
        × (r.consecutive_loss_demote_windows ≡ 0))
      ⊎ ((st ≡ assumed_bad) × (t.min_active ≤ usable_after p 0 s.planes))

  -- A step writes one record.
  Step-write :
      (t : EvStateTable Float) (plane : ℕ) (rec : PlaneRecord Float) (s : Tenant Float)
      {s' : Tenant Float}
      → Step fl t plane rec s s'
      → (v : PlaneRecord Float) × (s'.planes ≡ set s.planes plane v)
        × ((v.state ≡ rec.state) ⊎ Change t plane s rec v.state)
  Step-write t plane rec s (keep v e tr w) = (v, ap (λ (q : Tenant Float). q.planes) w, inl e)
  Step-write t plane rec s (promote v n e tr up quiet w) =
      (v, ap (λ (q : Tenant Float). q.planes) w, inr (inl (e, up, quiet)))
  Step-write t plane rec s (demote v n e tr room w) =
      (v, ap (λ (q : Tenant Float). q.planes) w, inr (inr (e, room)))

  set-legal :
      (t : EvStateTable Float) (plane p : ℕ) (rec : PlaneRecord Float) (s : Tenant Float)
      (v : PlaneRecord Float) (r r' : PlaneRecord Float)
      → get_elem? s.planes plane ≡ some rec
      → (v.state ≡ rec.state) ⊎ Change t plane s rec v.state
      → get_elem? s.planes p ≡ some r
      → get_elem? (set s.planes plane v) p ≡ some r'
      → r'.state ≢ r.state
      → (p ≡ plane) × Change t p s r r'.state
  set-legal t plane p rec s v r r' read how g g' ne = elim (ℕ_discrete p plane) [
    | yes here ↦ (
      here,
      ground
          (arith, get_elem?-set_self s.planes plane v (lt-length_of_get_elem? s.planes plane read)),
    )
    | no away ↦ absurd (ground (arith, get_elem?-set_ne s.planes plane p v (λ q. away (sym q))))
  ]

  -- A call that changes the state of a plane is a call for that plane, and it either promotes it
  -- to GOOD, with enough consecutive successes and no lossy window counted, or demotes it while at
  -- least `min_active` other planes are usable.
  pub handle-legal :
      (t : EvStateTable Float) (e : Event) (t' : EvStateTable Float) (s s' : Tenant Float) (p : ℕ)
      (r r' : PlaneRecord Float)
      → handle fl t e ≡ ok t'
      → lookup (tenant_of e) t.by_tenant ≡ some s
      → lookup (tenant_of e) t'.by_tenant ≡ some s'
      → get_elem? s.planes p ≡ some r
      → get_elem? s'.planes p ≡ some r'
      → r'.state ≢ r.state
      → (p ≡ plane_of e) × Change t p s r r'.state
  handle-legal t e t' s s' p r r' h k k' g g' ne = elim (handle-TableStep fl t e h) [
    | idle same ↦ absurd (ground arith)
    | at s₀ rec s₀' known in_range read st put ↦
        let (v, w, how) = Step-write t (plane_of e) rec s₀ st in
        let e₁ : s₀ ≡ s = ground arith in
        let e₂ : s₀' ≡ s' = ground (arith, lookup-insert_self (tenant_of e) s₀' t.by_tenant) in
        subst (λ q. (p ≡ plane_of e) × Change t p q r r'.state) e₁
          (set-legal t (plane_of e) p rec s₀ v r r' read how (ground arith) (ground arith) ne)
  ]

  -- A call changes nothing of another tenant.
  pub handle-frame_tenant :
      (t : EvStateTable Float) (e : Event) (t' : EvStateTable Float) (other : String)
      → handle fl t e ≡ ok t'
      → other ≢ tenant_of e
      → lookup other t'.by_tenant ≡ lookup other t.by_tenant
  handle-frame_tenant t e t' other h ne = elim (handle-TableStep fl t e h) [
    | idle same ↦ ap (λ (u : EvStateTable Float). lookup other u.by_tenant) same
    | at s₀ rec s₀' known in_range read st put ↦
        ap (λ (u : EvStateTable Float). lookup other u.by_tenant) put
        ∙ lookup-insert_ne (tenant_of e) other s₀' t.by_tenant (λ q. ne (sym q))
  ]

  -- A call changes no record of its own tenant but that of its own plane.
  pub handle-frame_plane :
      (t : EvStateTable Float) (e : Event) (t' : EvStateTable Float) (s s' : Tenant Float) (p : ℕ)
      → handle fl t e ≡ ok t'
      → lookup (tenant_of e) t.by_tenant ≡ some s
      → lookup (tenant_of e) t'.by_tenant ≡ some s'
      → p ≢ plane_of e
      → get_elem? s'.planes p ≡ get_elem? s.planes p
  handle-frame_plane t e t' s s' p h k k' ne = elim (handle-TableStep fl t e h) [
    | idle same ↦ ground arith
    | at s₀ rec s₀' known in_range read st put ↦
        let (v, w, how) = Step-write t (plane_of e) rec s₀ st in
        ground (
          arith,
          lookup-insert_self (tenant_of e) s₀' t.by_tenant,
          get_elem?-set_ne s₀.planes (plane_of e) p v (λ q. ne (sym q)),
        )
  ]

  abbrev pub Refused : EvStateTable Float → String → ℕ → Outcome → Type 0
  Refused t tenant plane o =
      (lookup tenant t.by_tenant ≡ none) ⊎ (t.num_planes ≤ plane) ⊎ BadOutcome o

  pub check_plane-cases :
      (t : EvStateTable Float) (tenant : String) (plane : ℕ)
      → IsValid fl t
      → (((lookup tenant t.by_tenant ≡ none) ⊎ (t.num_planes ≤ plane))
          × (check_plane fl t tenant plane ≡ raise value_error))
        ⊎ ((lookup tenant t.by_tenant ≢ none)
            × (plane < t.num_planes)
            × (x : Tenant Float × PlaneRecord Float) × (check_plane fl t tenant plane ≡ ok x))
  unfolding check_plane
  check_plane-cases t tenant plane v = elim (Option-cases (lookup tenant t.by_tenant)) [
    | inl missing ↦ inl (inl missing, rw missing)
    | inr (s, known) ↦ elim (Bool-cases (ltb plane t.num_planes)) [
      | inl inside ↦
          let (rec, read) =
            get_elem?_of_lt-length s.planes plane
              (omega (arith, (v tenant s known).sized, ltb→lt plane t.num_planes inside)) in
          inr (λ none_there. ground arith, ground arith, (s, rec), rw (known, inside, read))
      | inr outside ↦ inl (inr (ground arith), rw (known, outside))
    ]
  ]

  -- On a valid table a probe result is refused, always with ValueError, exactly for an unknown
  -- tenant, a plane out of range, or a success whose round trip is missing or negative; any other
  -- gives a new table.
  pub record_probe_result_total :
      (t : EvStateTable Float) (tenant : String) (plane : ℕ) (o : Outcome)
      → IsValid fl t
      → (Refused t tenant plane o × (record_probe_result fl t tenant plane o ≡ raise value_error))
        ⊎ ((¬ Refused t tenant plane o)
            × (t' : EvStateTable Float) × (record_probe_result fl t tenant plane o ≡ ok t'))
  unfolding record_probe_result probe_outcome
  record_probe_result_total t tenant plane o v = elim (check_plane-cases t tenant plane v) [
    | inl (inl missing, e) ↦ inl (inl missing, rw e)
    | inl (inr outside, e) ↦ inl (inr (inl outside), rw e)
    | inr (known, inside, (s, rec), e) ↦ by_outcome o known inside s rec e
  ]
    where
      by_outcome :
          (o : Outcome)
          → lookup tenant t.by_tenant ≢ none
          → plane < t.num_planes
          → (s : Tenant Float) (rec : PlaneRecord Float)
          → check_plane fl t tenant plane ≡ ok (s, rec)
          → (Refused t tenant plane o
              × (record_probe_result fl t tenant plane o ≡ raise value_error))
            ⊎ ((¬ Refused t tenant plane o)
                × (t' : EvStateTable Float) × (record_probe_result fl t tenant plane o ≡ ok t'))
      by_outcome (success none) known inside s rec e = inl (inr (inr tt), rw e)
      by_outcome (success (some (negsuc n))) known inside s rec e = inl (inr (inr tt), rw e)
      by_outcome (success (some (pos n))) known inside s rec e =
          inr (λ x. ground arith, put_tenant fl t tenant (probe_success fl t plane n rec s), rw e)
      by_outcome timeout known inside s rec e =
          inr (λ x. ground arith, put_tenant fl t tenant (probe_timeout fl t plane rec s), rw e)
