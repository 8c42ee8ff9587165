-- ===== src/EvState/Weights.antt =====
-- The spray weights that a policy reads (ev_state.py, `weights`, `_rebuild_weights_locked`).
use srv6_ai_fabric.Prelude.{
  String_eq, List, [], arith, false, get_elem?, map, refl, some, true, ℕ, ◌∷◌, ◌≡◌, ◌≢◌, ◌≤◌, ◌⊎◌,
  String, get_elem?-map, inl, inr, ok,
}
use srv6_ai_fabric.EvState.{
  EvState, PlaneRecord, assumed_bad, good, rebuild_weights, state_weight, unknown, EvStateConfig,
  EvStateTable, Tenant, init,
}
use srv6_ai_fabric.EvState.Count.{usable}
use srv6_ai_fabric.Prelude.Floats.{FloatLaws, Floats}
use mathlib.Core.List.{foldl}
use srv6_ai_fabric.EvState.Table.{Event, init-IsValid, run, run-IsValid}
use srv6_ai_fabric.EvState.Safety.{run-floor}
use srv6_ai_fabric.Prelude.Dict.{lookup}

module _ (fl : Floats) (laws : FloatLaws fl) where
  open fl use {Float, float_zero, float_one, add, div, lt, le, of_ℕ}

  abbrev raw : List (PlaneRecord Float) → List Float
  raw = map (λ (r : PlaneRecord Float). state_weight fl r.state)

  total-keeps_pos :
      (acc : Float) (rs : List (PlaneRecord Float))
      → lt float_zero acc ≡ true
      → lt float_zero (foldl add acc (raw rs)) ≡ true
  total-keeps_pos acc [] h = h
  total-keeps_pos acc (r ∷ rs) h =
      total-keeps_pos (add acc (state_weight fl r.state)) rs (one_more r.state)
    where
      one_more : (st : EvState) → lt float_zero (add acc (state_weight fl st)) ≡ true
      one_more unknown = laws.add_pos_left acc _ h (laws.lt_asymm _ _ laws.zero-lt-half)
      one_more good = laws.add_pos_left acc _ h (laws.lt_asymm _ _ laws.zero-lt-one)
      one_more assumed_bad = rw (laws.add-zero acc) h

  total_pos :
      (acc : Float) (rs : List (PlaneRecord Float))
      → lt acc float_zero ≡ false
      → 1 ≤ usable rs
      → lt float_zero (foldl add acc (raw rs)) ≡ true
  unfolding usable
  total_pos acc [] h u = absurd (omega arith)
  total_pos acc (r ∷ rs) h u =
      by_state r.state refl (total_pos (add acc (state_weight fl r.state)) rs)
    where
      by_state :
          (st : EvState)
          → r.state ≡ st
          → (lt (add acc (state_weight fl r.state)) float_zero ≡ false
              → 1 ≤ usable rs
              → lt float_zero (foldl add acc (raw (r ∷ rs))) ≡ true)
          → lt float_zero (foldl add acc (raw (r ∷ rs))) ≡ true
      by_state unknown e rest =
          total-keeps_pos _ rs (rw e (laws.add_pos_right acc _ h laws.zero-lt-half))
      by_state good e rest =
          total-keeps_pos _ rs (rw e (laws.add_pos_right acc _ h laws.zero-lt-one))
      by_state assumed_bad e rest = rest (rw (e, laws.add-zero acc) h) (ground arith)

  pub zero_nonneg : lt float_zero float_zero ≡ false
  zero_nonneg = ground (arith, laws.lt_asymm float_zero float_zero)

  share-sign :
      (r : PlaneRecord Float) (total : Float)
      → lt float_zero total ≡ true
      → ((r.state ≡ assumed_bad) × (div (state_weight fl r.state) total ≡ float_zero))
        ⊎ ((r.state ≢ assumed_bad) × (lt float_zero (div (state_weight fl r.state) total) ≡ true))
  share-sign r total h = by_state r.state refl
    where
      by_state :
          (st : EvState)
          → r.state ≡ st
          → ((r.state ≡ assumed_bad) × (div (state_weight fl r.state) total ≡ float_zero))
            ⊎ ((r.state ≢ assumed_bad)
                × (lt float_zero (div (state_weight fl r.state) total) ≡ true))
      by_state unknown e = inr (λ q. cc, rw e (laws.half-div_pos total h))
      by_state good e = inr (λ q. cc, rw e (laws.one-div_pos total h))
      by_state assumed_bad e = inl (e, rw e (laws.zero-div total h))

  -- In a weights tuple of a tenant with a usable plane the demoted planes have weight 0.0 and all
  -- others a positive weight.
  rebuild_weights-sign :
      (np : ℕ) (rs : List (PlaneRecord Float)) (p : ℕ) (r : PlaneRecord Float)
      → 1 ≤ usable rs
      → get_elem? rs p ≡ some r
      → (w : Float) × (get_elem? (rebuild_weights fl np rs) p ≡ some w)
        × (((r.state ≡ assumed_bad) × (w ≡ float_zero))
            ⊎ ((r.state ≢ assumed_bad) × (lt float_zero w ≡ true)))
  unfolding rebuild_weights
  rebuild_weights-sign np rs p r u g =
      let total = foldl add float_zero (raw rs) in
      let positive = total_pos float_zero rs zero_nonneg u in
      let some_share : le total float_zero ≡ false =
        rw (laws.le-not_lt total float_zero, positive) in
      (
        div (state_weight fl r.state) total,
        rw some_share (
            get_elem?-map (λ x. div x total) (raw rs) p
              (get_elem?-map (λ (q : PlaneRecord Float). state_weight fl q.state) rs p g)),
        share-sign r total positive,
      )

  -- From a new table, after any calls, the weights that a policy reads for a tenant have one entry
  -- for each plane: 0.0 for a demoted plane and a positive one for any other.
  pub run-weights :
      (tenants : List String) (np : ℕ) (cfg : EvStateConfig Float) (es : List Event)
      (t : EvStateTable Float) (tenant : String) (s : Tenant Float) (p : ℕ) (r : PlaneRecord Float)
      → init fl tenants np cfg ≡ ok t
      → lookup tenant (run fl t es).by_tenant ≡ some s
      → get_elem? s.planes p ≡ some r
      → (w : Float) × (get_elem? s.weights p ≡ some w)
        × (((r.state ≡ assumed_bad) × (w ≡ float_zero))
            ⊎ ((r.state ≢ assumed_bad) × (lt float_zero w ≡ true)))
  run-weights tenants np cfg es t tenant s p r h e g =
      let i = run-IsValid fl t es (init-IsValid fl tenants np cfg h) tenant s e in
      let (_, _, one) = run-floor fl tenants np cfg es t tenant s h e in
      rw i.weighed (rebuild_weights-sign (run fl t es).num_planes s.planes p r one g)
