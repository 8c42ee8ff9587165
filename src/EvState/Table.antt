-- ===== src/EvState/Table.antt =====
-- The table under any sequence of probe results and loss windows (ev_state.py, `EVStateTable`).
use srv6_ai_fabric.Prelude.{
  ℕ, ◌<◌, ◌≡◌, none, some, List, [], ◌∷◌, arith, get_elem?, String, String_eq, Result, ok,
  >>=-eq-ok, Bool-cases, false, inl, inr, ok-injective, subst, sym, true, ◌==◌, Result-cases,
  if◌then◌else◌, ltb, refl, ◌-◌, leb, settle, ap,
}
use srv6_ai_fabric.Prelude.Int.{pos, negsuc}
use srv6_ai_fabric.Prelude.Dict.{lookup, insert, lookup-insert, Dict}
use srv6_ai_fabric.Prelude.Floats.{Floats}
use srv6_ai_fabric.EvState.{
  PlaneRecord, Tenant, EvStateTable, Outcome, success, timeout, probe_outcome, record_probe_result,
  record_loss_window, check_plane, put_tenant, EvStateConfig, init, new_tenant, new_tenants,
  resolve_min_active,
}
use srv6_ai_fabric.EvState.Machine.{Step, loss_window-Step, probe_success-Step, probe_timeout-Step}
use srv6_ai_fabric.EvState.Invariant.{
  IsSound, Step-IsSound, new_tenant-IsSound, resolve_min_active-le,
}
use mathlib.Core.List.{foldl}

-- A call of one of the two methods that change the table.
pub data Event : Type 0 where
  probe : String → ℕ → Outcome → Event
  loss : String → ℕ → ℕ → ℕ → Event

abbrev pub tenant_of : Event → String
tenant_of (probe tenant plane outcome) = tenant
tenant_of (loss tenant plane seen expected) = tenant

abbrev pub plane_of : Event → ℕ
plane_of (probe tenant plane outcome) = plane
plane_of (loss tenant plane seen expected) = plane

module _ (fl : Floats) where
  open fl use {Float, ratio}

  unfoldable pub handle : EvStateTable Float → Event → Result (EvStateTable Float)
  handle t (probe tenant plane outcome) = record_probe_result fl t tenant plane outcome
  handle t (loss tenant plane seen expected) = record_loss_window fl t tenant plane seen expected

  -- A call that raises leaves the table as it was.
  unfoldable pub run : EvStateTable Float → List Event → EvStateTable Float
  run t [] = t
  run t (e ∷ es) = run (settle (handle t e) t) es

  pub run-step :
      (t : EvStateTable Float) (e : Event) (es : List Event) {t' : EvStateTable Float}
      → handle t e ≡ ok t'
      → run t (e ∷ es) ≡ run t' es
  unfolding run
  run-step t e es h = ap (λ r. run (settle r t) es) h

  -- What a call does to the table: nothing, or a step of one plane of one tenant.
  pub data TableStep (t : EvStateTable Float) (tenant : String) (plane : ℕ)
      : EvStateTable Float → Type 0 where
    idle : {t' : EvStateTable Float} → t' ≡ t → TableStep t tenant plane t'
    at :
        {t' : EvStateTable Float} (s : Tenant Float) (rec : PlaneRecord Float) (s' : Tenant Float)
        → lookup tenant t.by_tenant ≡ some s
        → plane < t.num_planes
        → get_elem? s.planes plane ≡ some rec
        → Step fl t plane rec s s'
        → t' ≡ put_tenant fl t tenant s'
        → TableStep t tenant plane t'

  pub record IsFound (t : EvStateTable Float) (tenant : String) (plane : ℕ) (s : Tenant Float)
      (rec : PlaneRecord Float) : Type 0 where
    pub known : lookup tenant t.by_tenant ≡ some s
    pub in_range : plane < t.num_planes
    pub read : get_elem? s.planes plane ≡ some rec

  pub check_plane-ok :
      (t : EvStateTable Float) (tenant : String) (plane : ℕ) {s : Tenant Float}
      {rec : PlaneRecord Float}
      → check_plane fl t tenant plane ≡ ok (s, rec)
      → IsFound t tenant plane s rec
  unfolding check_plane
  check_plane-ok t tenant plane h = ground arith

  pub check_plane-IsFound :
      (t : EvStateTable Float) (tenant : String) (plane : ℕ) {s : Tenant Float}
      {rec : PlaneRecord Float}
      → IsFound t tenant plane s rec
      → check_plane fl t tenant plane ≡ ok (s, rec)
  unfolding check_plane
  check_plane-IsFound t tenant plane f = ground arith

  probe_outcome-Step :
      (t : EvStateTable Float) (plane : ℕ) (o : Outcome) (rec : PlaneRecord Float)
      (s : Tenant Float) {s' : Tenant Float}
      → probe_outcome fl t plane o rec s ≡ ok s'
      → Step fl t plane rec s s'
  unfolding probe_outcome
  probe_outcome-Step t plane (success none) rec s h = cc
  probe_outcome-Step t plane (success (some (negsuc n))) rec s h = cc
  probe_outcome-Step t plane (success (some (pos rtt))) rec s h =
      subst (Step fl t plane rec s) (ok-injective _ _ h) (probe_success-Step fl t plane rec s rtt)
  probe_outcome-Step t plane timeout rec s h =
      subst (Step fl t plane rec s) (ok-injective _ _ h) (probe_timeout-Step fl t plane rec s)

  pub handle-TableStep :
      (t : EvStateTable Float) (e : Event) {t' : EvStateTable Float}
      → handle t e ≡ ok t'
      → TableStep t (tenant_of e) (plane_of e) t'
  unfolding handle record_probe_result record_loss_window
  handle-TableStep t (probe tenant plane o) h =
      let ((s, rec), found, rest) = >>=-eq-ok (check_plane fl t tenant plane) _ h in
      let (s', out, e) = >>=-eq-ok (probe_outcome fl t plane o rec s) _ rest in
      let f = check_plane-ok t tenant plane found in
      at s rec s' f.known f.in_range f.read (probe_outcome-Step t plane o rec s out)
        (sym (ok-injective _ _ e))
  handle-TableStep t (loss tenant plane seen expected) h =
      let ((s, rec), found, rest) = >>=-eq-ok (check_plane fl t tenant plane) _ h in
      let f = check_plane-ok t tenant plane found in
      elim (Bool-cases (expected == 0)) [
        | inl empty ↦ idle (ground arith)
        | inr some_sent ↦
            at s rec _ f.known f.in_range f.read
              (loss_window-Step fl t plane rec s
                (ratio (expected - (if ltb expected seen then expected else seen)) expected))
              (ground arith)
      ]

  -- The invariant of the whole table.
  abbrev pub IsValid : EvStateTable Float → Type 0
  IsValid t =
      (tenant : String) (s : Tenant Float)
      → lookup tenant t.by_tenant ≡ some s
      → IsSound fl t.num_planes t.min_active s

  pub TableStep-IsValid :
      (t : EvStateTable Float) (tenant : String) (plane : ℕ) {t' : EvStateTable Float}
      → TableStep t tenant plane t'
      → IsValid t
      → IsValid t'
  TableStep-IsValid t tenant plane (idle e) v = subst IsValid (sym e) v
  TableStep-IsValid t tenant plane (at s rec s' known _ read st e) v =
      subst IsValid (sym e) (λ other q h. elim (Bool-cases (String_eq.beq tenant other)) [
        | inl here ↦
            subst (IsSound fl t.num_planes t.min_active) (written other here h)
              (Step-IsSound fl t plane rec s read st (v tenant s known))
        | inr away ↦ v other q (elsewhere other away h)
      ])
    where
      written :
          (other : String) {q : Tenant Float}
          → String_eq.beq tenant other ≡ true
          → lookup other (insert tenant s' t.by_tenant) ≡ some q
          → s' ≡ q
      written other b h = ground (arith, lookup-insert tenant other s' t.by_tenant)

      elsewhere :
          (other : String) {q : Tenant Float}
          → String_eq.beq tenant other ≡ false
          → lookup other (insert tenant s' t.by_tenant) ≡ some q
          → lookup other t.by_tenant ≡ some q
      elsewhere other b h = ground (arith, lookup-insert tenant other s' t.by_tenant)

  -- What no call changes.
  pub record SameShape (t t' : EvStateTable Float) : Type 0 where
    pub same_tenants : t'.tenants ≡ t.tenants
    pub same_num_planes : t'.num_planes ≡ t.num_planes
    pub same_cfg : t'.cfg ≡ t.cfg
    pub same_min_active : t'.min_active ≡ t.min_active

  pub TableStep-SameShape :
      (t : EvStateTable Float) (tenant : String) (plane : ℕ) {t' : EvStateTable Float}
      → TableStep t tenant plane t'
      → SameShape t t'
  TableStep-SameShape t tenant plane (idle e) = ground arith
  TableStep-SameShape t tenant plane (at s rec s' known _ read st e) = ground arith

  -- A call, raising or not, is a step of the table.
  pub settle-TableStep :
      (t : EvStateTable Float) (e : Event)
      → TableStep t (tenant_of e) (plane_of e) (settle (handle t e) t)
  settle-TableStep t e = elim (Result-cases (handle t e)) [
    | inl (t', done) ↦ rw done (handle-TableStep t e done)
    | inr (x, failed) ↦ rw failed (idle refl)
  ]

  pub run-IsValid : (t : EvStateTable Float) (es : List Event) → IsValid t → IsValid (run t es)
  unfolding run
  run-IsValid t [] v = v
  run-IsValid t (e ∷ es) v =
      run-IsValid (settle (handle t e) t) es
        (TableStep-IsValid t (tenant_of e) (plane_of e) (settle-TableStep t e) v)

  pub run-SameShape : (t : EvStateTable Float) (es : List Event) → SameShape t (run t es)
  unfolding run
  run-SameShape t [] = record {
    same_tenants = refl;
    same_num_planes = refl;
    same_cfg = refl;
    same_min_active = refl;
  }
  run-SameShape t (e ∷ es) = ground (
    arith,
    run-SameShape (settle (handle t e) t) es,
    TableStep-SameShape t (tenant_of e) (plane_of e) (settle-TableStep t e),
  )

  no_entry : (k : String) (q : Tenant Float) → ¬ (lookup {V = Tenant Float} k [] ≡ some q)
  unfolding lookup
  no_entry k q h = cc

  -- Every tenant of a new table is a new tenant.
  new_tenants-new :
      (np : ℕ) (ts : List String) (d : Dict String (Tenant Float))
      → ((k : String) (q : Tenant Float) → lookup k d ≡ some q → q ≡ new_tenant fl np)
      → (k : String) (q : Tenant Float)
      → lookup k (foldl (λ d tenant. insert tenant (new_tenant fl np) d) d ts) ≡ some q
      → q ≡ new_tenant fl np
  new_tenants-new np [] d old k q h = old k q h
  new_tenants-new np (t ∷ ts) d old k q h =
      new_tenants-new np ts (insert t (new_tenant fl np) d)
        (λ j r e. ground (arith, lookup-insert t j (new_tenant fl np) d, old j r)) k q h

  pub init-IsValid :
      (tenants : List String) (np : ℕ) (cfg : EvStateConfig Float) {t : EvStateTable Float}
      → init fl tenants np cfg ≡ ok t
      → IsValid t
  unfolding init new_tenants
  init-IsValid tenants np cfg {t} h tenant s e =
      let known : (leb 1 np ≡ true)
          × (t.num_planes ≡ np)
          × (t.min_active ≡ resolve_min_active cfg.min_active_planes np)
          × (t.by_tenant ≡ foldl (λ d k. insert k (new_tenant fl np) d) [] tenants) =
        ground arith in
      let bounds = resolve_min_active-le cfg.min_active_planes np (ground arith) in
      let fresh : s ≡ new_tenant fl np =
        new_tenants-new np tenants [] (λ k q n. absurd (no_entry k q n)) tenant s
          (rw (← known.3) e) in
      rw (fresh, known.1, known.2) (new_tenant-IsSound fl np _ bounds.1)
