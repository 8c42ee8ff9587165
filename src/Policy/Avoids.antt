-- ===== src/Policy/Avoids.antt =====
-- The policy on the EV table: demoted planes get no packets (policy.py, `HealthAwareMrc.pick`, with
-- ev_state.py, `weights`).
use srv6_ai_fabric.Prelude.{
  lt-length_of_get_elem?, ltb→lt, ◌≡◌, ◌≢◌, ◌≤◌, ◌<◌, ◌⊎◌, ◌∷◌, ◌∙◌, List, String, String_eq, [],
  arith, false, true, inl, inr, length, length-map, length-replicate, refl, some, suc, zero, ok, ℕ,
  Bool-cases, get_elem?, get_elem?_of_lt-length, map, ap, ltb, subst, sym,
}
use srv6_ai_fabric.Prelude.Dict.{lookup}
use srv6_ai_fabric.Prelude.Floats.{Floats, FloatLaws}
use srv6_ai_fabric.Topo.{FlowKey, hash5}
use srv6_ai_fabric.EvState.{
  EvState, unknown, good, state_weight, EvStateConfig, EvStateTable, PlaneRecord, Tenant,
  assumed_bad, init, rebuild_weights,
}
use srv6_ai_fabric.EvState.Table.{Event, run, run-IsValid, init-IsValid}
use srv6_ai_fabric.EvState.Safety.{run-floor}
use srv6_ai_fabric.EvState.Weights.{zero_nonneg, run-weights}
use srv6_ai_fabric.EvState.Count.{usable}
use srv6_ai_fabric.Policy.{
  health_aware_mrc, pick, pick_by_weights, read_weights, weighted_pick, build_cdf, sum,
}
use mathlib.Core.Option.{some-injective}
use mathlib.Core.List.{foldl}
use srv6_ai_fabric.Policy.Draws.{length-build_cdf, weighted_pick-lt, weighted_pick-skips_zero}

module _ (fl : Floats) (laws : FloatLaws fl) where
  open fl use {Float, float_zero, float_one, of_ℕ, add, lt, le, div}

  -- A weight as the table gives it.
  abbrev IsWeight : Float → Type 0
  IsWeight w = (w ≡ float_zero) ⊎ (lt float_zero w ≡ true)

  sum-keeps_pos :
      (acc : Float) (ws : List Float)
      → ((p : ℕ) (w : Float) → get_elem? ws p ≡ some w → IsWeight w)
      → lt float_zero acc ≡ true
      → lt float_zero (foldl add acc ws) ≡ true
  sum-keeps_pos acc [] all h = h
  sum-keeps_pos acc (w ∷ ws) all h =
      sum-keeps_pos (add acc w) ws (λ p v at. all (suc p) v at) (more (all 0 w refl))
    where
      more : IsWeight w → lt float_zero (add acc w) ≡ true
      more (inl e) = rw (e, laws.add-zero acc) h
      more (inr some_weight) = laws.add_pos_left acc w h (laws.lt_asymm float_zero w some_weight)

  -- The weights have a positive sum if one of them is positive.
  sum_pos :
      (acc : Float) (ws : List Float) (p : ℕ) (w : Float)
      → lt acc float_zero ≡ false
      → ((p : ℕ) (w : Float) → get_elem? ws p ≡ some w → IsWeight w)
      → get_elem? ws p ≡ some w
      → lt float_zero w ≡ true
      → lt float_zero (foldl add acc ws) ≡ true
  sum_pos acc [] p w low all at h = cc
  sum_pos acc (v ∷ ws) zero w low all at h =
      let here : lt float_zero v ≡ true = rw (some-injective v w at) h in
      sum-keeps_pos (add acc v) ws (λ p v at. all (suc p) v at) (laws.add_pos_right acc v low here)
  sum_pos acc (v ∷ ws) (suc p) w low all at h =
      sum_pos (add acc v) ws p w (still (all 0 v refl)) (λ p v at. all (suc p) v at) at h
    where
      still : IsWeight v → lt (add acc v) float_zero ≡ false
      still (inl e) = rw (e, laws.add-zero acc) low
      still (inr some_weight) =
          laws.lt_asymm float_zero _ (laws.add_pos_right acc v low some_weight)

  length-rebuild_weights :
      (np : ℕ) (rs : List (PlaneRecord Float))
      → length rs ≡ np
      → length (rebuild_weights fl np rs) ≡ np
  unfolding rebuild_weights
  length-rebuild_weights np rs h =
      let raw = map (λ (r : PlaneRecord Float). state_weight fl r.state) rs in
      let total = foldl add float_zero raw in
      elim (Bool-cases (le total float_zero)) [
        | inl none_left ↦ rw none_left (length-replicate np (div float_one (of_ℕ np)))
        | inr some_left ↦ rw some_left (
            length-map (λ x. div x total) raw
            ∙ length-map (λ (r : PlaneRecord Float). state_weight fl r.state) rs
            ∙ h)
      ]

  usable_plane :
      (rs : List (PlaneRecord Float))
      → 1 ≤ usable rs
      → (p : ℕ) × (r : PlaneRecord Float) × (get_elem? rs p ≡ some r) × (r.state ≢ assumed_bad)
  unfolding usable
  usable_plane [] h = absurd (omega arith)
  usable_plane (r ∷ rs) h = by_state r.state refl (usable_plane rs)
    where
      by_state :
          (st : EvState)
          → r.state ≡ st
          → (1 ≤ usable rs
              → (p : ℕ) × (q : PlaneRecord Float) × (get_elem? rs p ≡ some q)
                × (q.state ≢ assumed_bad))
          → (p : ℕ) × (q : PlaneRecord Float) × (get_elem? (r ∷ rs) p ≡ some q)
            × (q.state ≢ assumed_bad)
      by_state unknown e rest = (0, r, refl, λ q. cc)
      by_state good e rest = (0, r, refl, λ q. cc)
      by_state assumed_bad e rest = let (p, q, at, ne) = rest (ground arith) in (suc p, q, at, ne)

  -- `HealthAwareMrc` on the table that any calls, raising or not, have made of a new one: the pick
  -- succeeds and gives a plane of the fabric, and that plane is not demoted, unless it is the last
  -- one.
  pub pick-avoids_demoted :
      (tenants : List String) (np : ℕ) (cfg : EvStateConfig Float) (es : List Event)
      (t : EvStateTable Float) (tenant : String) (s : Tenant Float) (key_bytes : FlowKey → List ℕ)
      (seq : ℕ) (flow : FlowKey)
      → init fl tenants np cfg ≡ ok t
      → lookup tenant (run fl t es).by_tenant ≡ some s
      → (q : ℕ) × (r : PlaneRecord Float) × (pick fl np key_bytes
            (run fl t es)
            (health_aware_mrc tenant)
            seq
            flow
          ≡ ok q)
        × (get_elem? s.planes q ≡ some r)
        × ((r.state ≢ assumed_bad) ⊎ (suc q ≡ np))
  unfolding pick read_weights pick_by_weights
  pick-avoids_demoted tenants np cfg es t tenant s key_bytes seq flow h e =
      let (sized, _, one) = run-floor fl tenants np cfg es t tenant s h e in
      let i = run-IsValid fl t es (init-IsValid fl tenants np cfg h) tenant s e in
      let size : length s.weights ≡ np =
        ap length i.weighed
        ∙ length-rebuild_weights (run fl t es).num_planes s.planes i.sized
        ∙ sym i.sized
        ∙ sized in
      let signed = λ (p : ℕ) (r : PlaneRecord Float) (at : get_elem? s.planes p ≡ some r).
        run-weights fl laws tenants np cfg es t tenant s p r h e at in
      let all : (p : ℕ) (w : Float) → get_elem? s.weights p ≡ some w → IsWeight w = λ p w at.
        let (r, there) =
          get_elem?_of_lt-length s.planes p
            (omega (arith, lt-length_of_get_elem? s.weights p at)) in
        let (w', at', sign) = signed p r there in
        subst IsWeight (some-injective w' w (sym at' ∙ at))
          (elim sign [ inl (_, none_left) ↦ inl none_left | inr (_, more) ↦ inr more ]) in
      let (p₀, r₀, at₀, live₀) = usable_plane s.planes one in
      let positive : lt float_zero (sum fl s.weights) ≡ true =
        let (w₀, there₀, sign₀) = signed p₀ r₀ at₀ in
        let more : lt float_zero w₀ ≡ true = elim sign₀ [
          | inl (bad, _) ↦ absurd (live₀ bad)
          | inr (_, more) ↦ more
        ] in
        sum_pos float_zero s.weights p₀ w₀ (zero_nonneg fl laws) all there₀ more in
      let q = weighted_pick fl seq (hash5 key_bytes flow) (build_cdf fl s.weights) in
      let inside : q < np = omega (
        arith,
        weighted_pick-lt fl seq (hash5 key_bytes flow) (build_cdf fl s.weights)
            (omega (arith, length-build_cdf fl s.weights, lt-length_of_get_elem? s.planes p₀ at₀)),
        length-build_cdf fl s.weights,
      ) in
      let (r, at) = get_elem?_of_lt-length s.planes q (omega arith) in
      let some_left : le (sum fl s.weights) float_zero ≡ false =
        rw (laws.le-not_lt (sum fl s.weights) float_zero, positive) refl in
      let (w, there, sign) = signed q r at in
      let which : (r.state ≢ assumed_bad) ⊎ (suc q ≡ np) = elim sign [
        | inr (alive, _) ↦ inl alive
        | inl (bad, none_left) ↦ elim (Bool-cases (ltb (suc q) np)) [
          | inl early ↦ absurd (
              weighted_pick-skips_zero fl laws seq (hash5 key_bytes flow) q s.weights positive
                (there ∙ ap some none_left) (omega (arith, ltb→lt (suc q) np early)) refl)
          | inr final ↦ inr (ground arith)
        ]
      ] in
      (q, r, rw (e, some_left) refl, at, which)
