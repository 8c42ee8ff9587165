-- ===== src/Run.antt =====
-- srv6_fabric/mrc/run.py: the runs of a scenario's flows, the commands of their processes, and the frame
-- of a live run. The processes themselves are arguments.
pub mod Plans
use srv6_ai_fabric.Prelude.{
  ◌>>◌, ℕ_eq, String_eq, ℕ, List, Bool, Result, String, [], false, if◌then◌else◌, map, ok, raise,
  system_exit, type_error, value_error, ◌++◌, ◌>>=◌, ◌∷◌,
}
use srv6_ai_fabric.Topo.Addresses.{Fabric, cat}
use srv6_ai_fabric.Netem.{Fault, Command, Completed, NetemState, apply, revert, decimal}
use srv6_ai_fabric.Scenario.{FlowSpec}
use srv6_ai_fabric.Scenario.Documents.{
  Yaml, str, seq, mapping, Items, nil, cons, Fields, end, entry, FlowPair, FaultSpec, src_host,
  dst_host,
}
use srv6_ai_fabric.Scenario.Texts.{words}

-- `float_text` is the text that an f-string makes of a float.
pub record FlowRun (F : Type 0) : Type 0 where
  pub src_host : String
  pub dst_host : String
  pub tenant : String
  pub src_id : ℕ
  pub dst_id : ℕ
  pub policy_cli : String
  pub rate_pps : ℕ
  pub duration_s : F

-- `",".join(texts)`
unfoldable pub join : List String → String
join [] = ""
join (t ∷ []) = t
join (t ∷ u ∷ ts) = cat t (cat "," (join (u ∷ ts)))

module _ {F : Type 0} (text : Yaml F → String) where
  unfoldable pub item_texts : Items F → List String
  item_texts nil = []
  item_texts (cons v vs) = text v ∷ item_texts vs

  unfoldable pub char_texts : String → List String
  char_texts String.[] = []
  char_texts (String.◌∷◌ c s) = String.◌∷◌ c String.[] ∷ char_texts s

  unfoldable pub key_texts : Fields F → List String
  key_texts end = []
  key_texts (entry k v d) = k ∷ key_texts d

  -- `str(w) for w in value`
  unfoldable pub weight_texts : Yaml F → Result (List String)
  weight_texts (seq vs) = ok (item_texts vs)
  weight_texts (str s) = ok (char_texts s)
  weight_texts (mapping d) = ok (key_texts d)
  weight_texts _ = raise type_error

  -- `policy_to_cli`, its NotImplementedError and its ValueError as one: `expand_flows` catches both.
  unfoldable pub policy_to_cli : Yaml F → Result String
  policy_to_cli (str name) = ok name
  policy_to_cli (mapping (entry key value end)) =
      if String_eq.beq key "weighted"
      then weight_texts value >>= (λ texts. ok (cat "weighted:" (join texts)))
      else raise value_error
  policy_to_cli _ = raise value_error

  abbrev pub flow_run : FlowSpec F → String → FlowPair → FlowRun F
  flow_run fs cli pair = record {
    src_host = src_host pair;
    dst_host = dst_host pair;
    tenant = pair.tenant;
    src_id = pair.src;
    dst_id = pair.dst;
    policy_cli = cli;
    rate_pps = fs.rate_pps;
    duration_s = fs.duration_s;
  }

  -- A ValueError becomes the exit of the program, any other exception goes through.
  abbrev pub or_exit : Result String → Result String
  or_exit (ok s) = ok s
  or_exit (raise value_error) = raise system_exit
  or_exit (raise e) = raise e

  unfoldable pub expand_flows : List (FlowSpec F) → Result (List (FlowRun F))
  expand_flows [] = ok []
  expand_flows (fs ∷ flows) = do
    cli ← or_exit (policy_to_cli fs.policy_spec)
    rest ← expand_flows flows
    ok (map (flow_run fs cli) fs.pairs ++ rest)

unfoldable pub send_argv : {F : Type 0} → (F → String) → FlowRun F → List String
send_argv float_text r =
    "spray"
    ∷ "--role"
    ∷ "send"
    ∷ "--dst-id"
    ∷ decimal r.dst_id
    ∷ "--rate"
    ∷ cat (decimal r.rate_pps) "pps"
    ∷ "--duration"
    ∷ cat (float_text r.duration_s) "s"
    ∷ "--policy"
    ∷ r.policy_cli
    ∷ "--json"
    ∷ []

unfoldable pub recv_argv : {F : Type 0} → (F → String) → F → Bool → List String
recv_argv float_text idle mrc =
    "spray"
    ∷ "--role"
    ∷ "recv"
    ∷ "--idle-timeout"
    ∷ cat (float_text idle) "s"
    ∷ "--json"
    ∷ (if mrc then "--mrc" ∷ [] else [])

-- `faults_for_netem`, the texts in words
unfoldable pub faults_for_netem : List FaultSpec → List Fault
faults_for_netem = map (λ fault. record { target = words fault.target; spec = words fault.spec })

-- The live part of `run_scenario`: `run_flows` changes the world and may raise; the revert in the
-- `finally` prints what it raises.
unfoldable pub live_run :
    {World : Type 0}
    → (Command → World → Completed × World)
    → (World → Result (Unit {0}) × World)
    → Fabric
    → String
    → List FaultSpec
    → NetemState World
    → Result (Unit {0}) × NetemState World
live_run runner run_flows f topo faults s =
    let applied = apply runner f topo (faults_for_netem faults) s in
    elim (applied.0) [
      | raise e ↦ (raise e, applied.1)
      | ok _ ↦
          let ran = run_flows (applied.1).world in
          (ran.0, (revert runner false (record (applied.1) { world = ran.1 })).1)
    ]
