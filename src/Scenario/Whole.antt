-- ===== src/Scenario/Whole.antt =====
-- A validated scenario as a whole (scenario.py, `validate_flow` and `validate`).
use srv6_ai_fabric.Prelude.{
  ℕ_eq, String_eq, List, >>=-eq-ok, All, Bool-cases, Option, String, [], arith, inl, inr, length,
  none, ok, ok-injective, some, subst, ◌<◌, ◌∷◌, ◌≡◌,
}
use srv6_ai_fabric.Prelude.Floats.{Floats}
use srv6_ai_fabric.Topo.Addresses.{Fabric}
use srv6_ai_fabric.Policy.{SprayPolicy}
use srv6_ai_fabric.Scenario.{
  FlowSpec, Scenario, falsy, faults_of, flows_of, list_of_faults, opt_str, optional_mrc,
  parse_duration, policy_of, validate, validate_flow, validate_flows, validate_report,
}
use srv6_ai_fabric.Scenario.Documents.{
  item, FaultSpec, Items, Yaml, bool, cons, float, get, int, mapping, nil, null, parse_rate,
  require_keys, require_str, resolve_pairs, seq, str,
}
use srv6_ai_fabric.Scenario.Checked.{
  IsRunnable, IsParsed, HasReferenceHosts, resolve_pairs-IsRunnable, validate_faults-IsParsed,
}

module _ (fl : Floats) (read_float : String → Option fl.Float) where
  -- Pairs that can run, and a policy that can be built.
  abbrev pub IsSoundFlow : Fabric → FlowSpec fl.Float → Type 0
  IsSoundFlow f flow =
      All (IsRunnable f) flow.pairs
      × ((p : SprayPolicy fl) × (policy_of fl read_float f.num_planes flow.policy_spec ≡ ok p))

  abbrev pub IsSound : Fabric → Scenario fl.Float → Type 0
  IsSound f s = (0 < length s.flows) × All (IsSoundFlow f) s.flows × All (IsParsed f) s.faults

  validate_flow-IsSoundFlow :
      (f : Fabric) (v : Yaml fl.Float) (flow : FlowSpec fl.Float)
      → HasReferenceHosts f
      → validate_flow fl read_float f v ≡ ok flow
      → IsSoundFlow f flow
  unfolding validate_flow
  validate_flow-IsSoundFlow f (mapping d) flow ref h =
      let (_, _, r0) =
        >>=-eq-ok (require_keys d ("pairs" ∷ "policy" ∷ "rate" ∷ "duration" ∷ []) []) _ h in
      let (pairs_raw, _, r1) = >>=-eq-ok (item "pairs" d) _ r0 in
      let (pairs, ep, r2) = >>=-eq-ok (resolve_pairs f pairs_raw) _ r1 in
      let (policy_raw, _, r3) = >>=-eq-ok (item "policy" d) _ r2 in
      let (policy, built, r4) = >>=-eq-ok (policy_of fl read_float f.num_planes policy_raw) _ r3 in
      let (rate_raw, _, r5) = >>=-eq-ok (item "rate" d) _ r4 in
      let (rate, _, r6) = >>=-eq-ok (parse_rate rate_raw) _ r5 in
      let (duration_raw, _, r7) = >>=-eq-ok (item "duration" d) _ r6 in
      let (duration, _, e) = >>=-eq-ok (parse_duration fl read_float duration_raw) _ r7 in
      subst (IsSoundFlow f) (ok-injective _ _ e)
        (resolve_pairs-IsRunnable f pairs_raw pairs ref ep, (policy, built))
  validate_flow-IsSoundFlow f null flow ref h = cc
  validate_flow-IsSoundFlow f (bool b) flow ref h = cc
  validate_flow-IsSoundFlow f (int n) flow ref h = cc
  validate_flow-IsSoundFlow f (float x) flow ref h = cc
  validate_flow-IsSoundFlow f (str s) flow ref h = cc
  validate_flow-IsSoundFlow f (seq vs) flow ref h = cc

  validate_flows-IsSoundFlow :
      (f : Fabric) (vs : Items fl.Float) (flows : List (FlowSpec fl.Float))
      → HasReferenceHosts f
      → validate_flows fl read_float f vs ≡ ok flows
      → All (IsSoundFlow f) flows
  unfolding validate_flows
  validate_flows-IsSoundFlow f nil flows ref h = subst (All (IsSoundFlow f)) (ok-injective _ _ h) tt
  validate_flows-IsSoundFlow f (cons v vs) flows ref h =
      let (flow, ef, r) = >>=-eq-ok (validate_flow fl read_float f v) _ h in
      let (rest, er, e) = >>=-eq-ok (validate_flows fl read_float f vs) _ r in
      subst (All (IsSoundFlow f)) (ok-injective _ _ e)
        (validate_flow-IsSoundFlow f v flow ref ef, validate_flows-IsSoundFlow f vs rest ref er)

  flows_of-IsSoundFlow :
      (f : Fabric) (v : Yaml fl.Float) (flows : List (FlowSpec fl.Float))
      → HasReferenceHosts f
      → flows_of fl read_float f v ≡ ok flows
      → (0 < length flows) × All (IsSoundFlow f) flows
  unfolding flows_of validate_flows
  flows_of-IsSoundFlow f (seq (cons v vs)) flows ref h =
      let (flow, _, r) = >>=-eq-ok (validate_flow fl read_float f v) _ h in
      let (rest, _, e) = >>=-eq-ok (validate_flows fl read_float f vs) _ r in
      (
        subst (λ l. 0 < length l) (ok-injective _ _ e) (omega arith),
        validate_flows-IsSoundFlow f (cons v vs) flows ref h,
      )
  flows_of-IsSoundFlow f (seq nil) flows ref h = cc
  flows_of-IsSoundFlow f null flows ref h = cc
  flows_of-IsSoundFlow f (bool b) flows ref h = cc
  flows_of-IsSoundFlow f (int n) flows ref h = cc
  flows_of-IsSoundFlow f (float x) flows ref h = cc
  flows_of-IsSoundFlow f (str s) flows ref h = cc
  flows_of-IsSoundFlow f (mapping d) flows ref h = cc

  list_of_faults-IsParsed :
      (f : Fabric) (v : Yaml fl.Float) (faults : List FaultSpec)
      → list_of_faults fl read_float f v ≡ ok faults
      → All (IsParsed f) faults
  unfolding list_of_faults
  list_of_faults-IsParsed f (seq vs) faults h = validate_faults-IsParsed f vs faults h
  list_of_faults-IsParsed f null faults h = cc
  list_of_faults-IsParsed f (bool b) faults h = cc
  list_of_faults-IsParsed f (int n) faults h = cc
  list_of_faults-IsParsed f (float x) faults h = cc
  list_of_faults-IsParsed f (str s) faults h = cc
  list_of_faults-IsParsed f (mapping d) faults h = cc

  faults_of-IsParsed :
      (f : Fabric) (v : Option (Yaml fl.Float)) (faults : List FaultSpec)
      → faults_of fl read_float f v ≡ ok faults
      → All (IsParsed f) faults
  unfolding faults_of
  faults_of-IsParsed f none faults = λ h. subst (All (IsParsed f)) (ok-injective _ _ h) tt
  faults_of-IsParsed f (some v) faults = elim (Bool-cases (falsy fl read_float v)) [
    | inl empty ↦ rw empty (λ h. subst (All (IsParsed f)) (ok-injective _ _ h) tt)
    | inr full ↦ rw full (λ h. list_of_faults-IsParsed f v faults h)
  ]

  -- A scenario that the validator accepts, in a fabric with the hosts of the named sets, has a flow; all
  -- its pairs are different hosts of the fabric with a tenant of the fabric, its policies can be built, and
  -- the targets and specs of its faults are understood.
  pub validate-IsSound :
      (f : Fabric) (doc : Yaml fl.Float) (s : Scenario fl.Float)
      → HasReferenceHosts f
      → validate fl read_float f doc ≡ ok s
      → IsSound f s
  unfolding validate
  validate-IsSound f (mapping d) s ref h =
      let (_, _, r0) =
        >>=-eq-ok
          (require_keys d ("name" ∷ "flows" ∷ [])
            ("description" ∷ "faults" ∷ "report" ∷ "mrc" ∷ []))
          _ h in
      let (name, _, r1) = >>=-eq-ok (require_str "name" d) _ r0 in
      let (description, _, r2) = >>=-eq-ok (opt_str fl read_float (get "description" d)) _ r1 in
      let (flows_raw, _, r3) = >>=-eq-ok (item "flows" d) _ r2 in
      let (flows, ef, r4) = >>=-eq-ok (flows_of fl read_float f flows_raw) _ r3 in
      let (faults, ea, r5) = >>=-eq-ok (faults_of fl read_float f (get "faults" d)) _ r4 in
      let (out, _, r6) = >>=-eq-ok (validate_report fl read_float (get "report" d)) _ r5 in
      let (mrc, _, e) = >>=-eq-ok (optional_mrc fl read_float (get "mrc" d)) _ r6 in
      let (some_flow, sound) = flows_of-IsSoundFlow f flows_raw flows ref ef in
      subst (IsSound f) (ok-injective _ _ e)
        (some_flow, sound, faults_of-IsParsed f (get "faults" d) faults ea)
  validate-IsSound f null s ref h = cc
  validate-IsSound f (bool b) s ref h = cc
  validate-IsSound f (int n) s ref h = cc
  validate-IsSound f (float x) s ref h = cc
  validate-IsSound f (str t) s ref h = cc
  validate-IsSound f (seq vs) s ref h = cc
