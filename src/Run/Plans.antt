-- ===== src/Run/Plans.antt =====
-- A validated scenario can be planned (run.py, `expand_flows` and the dry run).
use srv6_ai_fabric.Scenario.{FlowSpec, Scenario, spec_of, validate, weights_of}
use srv6_ai_fabric.Scenario.Documents.{
  FaultSpec, FlowPair, Yaml, bool, end, entry, float, int, mapping, null, seq, str,
}
use srv6_ai_fabric.Prelude.{
  ℕ_eq, String_eq, ℕ, List, All, Bool-cases, String, [], inl, inr, lt→ltb, ok, refl, true, ◌<◌, ◌∷◌,
  ◌≡◌, ◌≢◌, >>=-eq-ok, All-append, Option, arith, length, length-append, length-map, map, raise,
  system_exit, ◌++◌, ◌+◌, ◌⊎◌,
}
use mathlib.Core.List.{Memᴰ}
use srv6_ai_fabric.Topo.Addresses.{cat, Fabric, inner_addr, green_anycast_addr, yellow_anycast_addr}
use srv6_ai_fabric.Netem.{preview, resolve, Command}
use srv6_ai_fabric.Scenario.Checked.{IsParsed, HasReferenceHosts, IsRunnable}
use srv6_ai_fabric.Scenario.Whole.{IsSoundFlow, validate-IsSound}
use srv6_ai_fabric.Policy.{known_tenant, Spec}
use srv6_ai_fabric.Run.{
  join, FlowRun, faults_for_netem, expand_flows, flow_run, or_exit, policy_to_cli, weight_texts,
}
use srv6_ai_fabric.Prelude.Floats.{Floats}

-- A run whose hosts are different, in the fabric, and named after their ids; both have an address.
abbrev pub IsPlanned : {F : Type 0} → Fabric → FlowRun F → Type 0
IsPlanned f r =
    (r.src_id ≢ r.dst_id)
    × ((a : String) × (inner_addr f r.tenant r.src_id ≡ ok a))
    × ((a : String) × (inner_addr f r.tenant r.dst_id ≡ ok a))

inner_addr_total :
    (f : Fabric) (tenant : String) (host_id : ℕ)
    → known_tenant tenant f.tenants ≡ true
    → host_id < f.num_leaves
    → (a : String) × (inner_addr f tenant host_id ≡ ok a)
unfolding inner_addr green_anycast_addr yellow_anycast_addr
inner_addr_total f tenant host_id known inside = elim (Bool-cases (String_eq.beq tenant "green")) [
  | inl green ↦ rw (known, green, lt→ltb _ _ inside) (_, refl)
  | inr not_green ↦ rw (known, not_green, lt→ltb _ _ inside) (_, refl)
]

preview-IsParsed :
    (f : Fabric) (faults : List FaultSpec)
    → All (IsParsed f) faults
    → (cs : List Command) × (preview f (faults_for_netem faults) ≡ ok cs)
unfolding preview faults_for_netem resolve
preview-IsParsed f [] h = ([], refl)
preview-IsParsed f (fault ∷ faults) (((nics, en), (tokens, et)), h) =
    let (cs, e) = preview-IsParsed f faults h in rw (en, et, e) (_, refl)

-- The pairs of all flows.
unfoldable pub pair_count : {F : Type 0} → List (FlowSpec F) → ℕ
pair_count [] = 0
pair_count (fs ∷ flows) = length fs.pairs + pair_count flows

module _ (fl : Floats) (read_float : String → Option fl.Float) (text : Yaml fl.Float → String) where
  flow_run-IsPlanned :
      (f : Fabric) (fs : FlowSpec fl.Float) (cli : String) (pairs : List FlowPair)
      → All (IsRunnable f) pairs
      → All (IsPlanned f) (map (flow_run text fs cli) pairs)
  flow_run-IsPlanned f fs cli [] h = tt
  flow_run-IsPlanned f fs cli (p ∷ pairs) ((known, src, dst, differ), h) = (
    (
      differ,
      inner_addr_total f p.tenant p.src known src,
      inner_addr_total f p.tenant p.dst known dst,
    ),
    flow_run-IsPlanned f fs cli pairs h,
  )

  weight_texts_total :
      (v : Yaml fl.Float) (ws : List fl.Float)
      → weights_of fl read_float v ≡ ok ws
      → (ts : List String) × (weight_texts text v ≡ ok ts)
  unfolding weights_of weight_texts
  weight_texts_total (seq vs) ws h = (_, refl)
  weight_texts_total (str s) ws h = (_, refl)
  weight_texts_total (mapping d) ws h = (_, refl)
  weight_texts_total null ws h = cc
  weight_texts_total (bool b) ws h = cc
  weight_texts_total (int n) ws h = cc
  weight_texts_total (float x) ws h = cc

  -- The policies that have a `--policy` text: a name, and weights.
  abbrev pub HasText : Yaml fl.Float → Type 0
  HasText (str name) = Unit
  HasText (mapping (entry key value end)) = key ≡ "weighted"
  HasText _ = ⊥

  -- What the text says: the name, or the weights in order behind `weighted:`.
  abbrev pub IsTextOf : Yaml fl.Float → String → Type 0
  IsTextOf (str name) cli = cli ≡ name
  IsTextOf (mapping (entry key value end)) cli =
      (ts : List String) × (weight_texts text value ≡ ok ts) × (cli ≡ cat "weighted:" (join ts))
  IsTextOf _ cli = ⊥

  -- A policy that can be built has a text, or is one that the program exits on.
  abbrev IsShown : Yaml fl.Float → Type 0
  IsShown v =
      let r = or_exit text (policy_to_cli text v) in
      (HasText v × (cli : String) × (r ≡ ok cli) × IsTextOf v cli)
      ⊎ ((¬ HasText v) × (r ≡ raise system_exit))

  mapping-IsShown :
      (key : String) (value : Yaml fl.Float) (spec : Spec fl)
      → spec_of fl read_float (mapping (entry key value end)) ≡ ok spec
      → IsShown (mapping (entry key value end))
  unfolding spec_of policy_to_cli
  mapping-IsShown key value spec = elim (Bool-cases (String_eq.beq key "weighted")) [
    | inl listed ↦ rw listed (λ h.
        let (ws, ew, _) = >>=-eq-ok (weights_of fl read_float value) _ h in
        let (ts, et) = weight_texts_total value ws ew in
        rw et (inl ((String_eq.beq_iff key "weighted").0 listed, _, refl, (ts, refl, refl))))
    | inr not_listed ↦
        rw not_listed
          (λ h. inr (λ e. (let listed = (String_eq.beq_iff key "weighted").1 e in cc), refl))
  ]

  policy_to_cli-IsShown :
      (v : Yaml fl.Float) (spec : Spec fl) → spec_of fl read_float v ≡ ok spec → IsShown v
  unfolding policy_to_cli
  policy_to_cli-IsShown (str name) spec h = inl (tt, name, refl, refl)
  policy_to_cli-IsShown (mapping (entry key value end)) spec h = mapping-IsShown key value spec h
  policy_to_cli-IsShown (mapping (entry key value (entry k v d))) spec h = inr (λ e. e, refl)
  policy_to_cli-IsShown (mapping end) spec h = inr (λ e. e, refl)
  policy_to_cli-IsShown null spec h = inr (λ e. e, refl)
  policy_to_cli-IsShown (bool b) spec h = inr (λ e. e, refl)
  policy_to_cli-IsShown (int n) spec h = inr (λ e. e, refl)
  policy_to_cli-IsShown (float x) spec h = inr (λ e. e, refl)
  policy_to_cli-IsShown (seq vs) spec h = inr (λ e. e, refl)

  -- A run is that of a pair of one of the flows, with the flow's policy, rate and duration.
  abbrev pub IsRunOf : List (FlowSpec fl.Float) → FlowRun fl.Float → Type 0
  IsRunOf flows r =
      (fs : FlowSpec fl.Float) × (pair : FlowPair) × Memᴰ fs flows
      × Memᴰ pair fs.pairs
      × (r.tenant ≡ pair.tenant)
      × (r.src_id ≡ pair.src)
      × (r.dst_id ≡ pair.dst)
      × (r.rate_pps ≡ fs.rate_pps)
      × (r.duration_s ≡ fs.duration_s)
      × IsTextOf fs.policy_spec r.policy_cli

  flow_run-IsRunOf :
      (fs : FlowSpec fl.Float) (flows : List (FlowSpec fl.Float)) (cli : String)
      (pairs : List FlowPair)
      → IsTextOf fs.policy_spec cli
      → ((pair : FlowPair) → Memᴰ pair pairs → Memᴰ pair fs.pairs)
      → All (IsRunOf (fs ∷ flows)) (map (flow_run text fs cli) pairs)
  flow_run-IsRunOf fs flows cli [] said inside = tt
  flow_run-IsRunOf fs flows cli (p ∷ pairs) said inside = (
    (fs, p, Memᴰ.head refl, inside p (Memᴰ.head refl), refl, refl, refl, refl, refl, said),
    flow_run-IsRunOf fs flows cli pairs said (λ q m. inside q (Memᴰ.tail m)),
  )

  IsRunOf-more :
      (fs : FlowSpec fl.Float) (flows : List (FlowSpec fl.Float)) (runs : List (FlowRun fl.Float))
      → All (IsRunOf flows) runs
      → All (IsRunOf (fs ∷ flows)) runs
  IsRunOf-more fs flows [] h = tt
  IsRunOf-more fs flows (run ∷ runs) ((flow, pair, there, a, b, c, d, e, g, said), h) =
      ((flow, pair, Memᴰ.tail there, a, b, c, d, e, g, said), IsRunOf-more fs flows runs h)

  -- What the plan of the flows is.
  abbrev pub IsExpanded : Fabric → List (FlowSpec fl.Float) → Type 0
  IsExpanded f flows =
      ((runs : List (FlowRun fl.Float)) × (expand_flows text flows ≡ ok runs)
        × All (IsPlanned f) runs
        × All (IsRunOf flows) runs
        × (length runs ≡ pair_count flows)
        × All (λ (fs : FlowSpec fl.Float). HasText fs.policy_spec) flows)
      ⊎ ((expand_flows text flows ≡ raise system_exit)
          × (fs : FlowSpec fl.Float) × Memᴰ fs flows
          × (¬ HasText fs.policy_spec))

  expand_flows-IsExpanded :
      (f : Fabric) (flows : List (FlowSpec fl.Float))
      → All (IsSoundFlow fl read_float f) flows
      → IsExpanded f flows
  unfolding expand_flows pair_count
  expand_flows-IsExpanded f [] h = inl ([], refl, tt, tt, refl, tt)
  expand_flows-IsExpanded f (fs ∷ flows) ((pairs, (policy, built)), h) =
      let (spec, es, _) = >>=-eq-ok (spec_of fl read_float fs.policy_spec) _ built in
      elim (policy_to_cli-IsShown fs.policy_spec spec es) [
        | inr (no_text, gone) ↦ inr (rw gone refl, fs, Memᴰ.head refl, no_text)
        | inl (shown, cli, e, said) ↦ elim (expand_flows-IsExpanded f flows h) [
          | inr (gone, flow, there, no_text) ↦
              inr (rw (e, gone) refl, flow, Memᴰ.tail there, no_text)
          | inl (runs, er, planned, from, count, all_shown) ↦ inl (
            map (flow_run text fs cli) fs.pairs ++ runs,
            rw (e, er) refl,
            All-append (IsPlanned f) (map (flow_run text fs cli) fs.pairs) runs
                (flow_run-IsPlanned f fs cli fs.pairs pairs) planned,
            All-append (IsRunOf (fs ∷ flows)) (map (flow_run text fs cli) fs.pairs) runs
                (flow_run-IsRunOf fs flows cli fs.pairs said (λ q m. m))
                (IsRunOf-more fs flows runs from),
            omega (
              arith,
              count,
              length-append (map (flow_run text fs cli) fs.pairs) runs,
              length-map (flow_run text fs cli) fs.pairs,
            ),
            (shown, all_shown),
          )
        ]
      ]

  -- A scenario that the validator accepts, in a fabric with the hosts of the named sets, can be planned:
  -- the dry run of its faults raises nothing, and its flows give a run for each pair, between different
  -- hosts that both have an address, or the program exits. It exits only when the policy of a flow is neither
  -- a name nor weights, and it goes on only when every one is. Each run is that of a pair of a flow, with
  -- the flow's rate, duration and policy, which is written as its name or as its weights.
  pub validate-IsPlanned :
      (f : Fabric) (doc : Yaml fl.Float) (s : Scenario fl.Float)
      → HasReferenceHosts f
      → validate fl read_float f doc ≡ ok s
      → ((cs : List Command) × (preview f (faults_for_netem s.faults) ≡ ok cs))
        × IsExpanded f s.flows
  validate-IsPlanned f doc s ref h =
      let sound = validate-IsSound fl read_float f doc s ref h in
      (preview-IsParsed f s.faults sound.2, expand_flows-IsExpanded f s.flows sound.1)
