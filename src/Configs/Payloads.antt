-- ===== src/Configs/Payloads.antt =====
-- The dict that `to_env_json` dumps, read by its keys (scenario.py and agent.py).
use srv6_ai_fabric.Prelude.{
  ◌∷◌, ◌++◌, ◌≡◌, ◌∙◌, List, Option, String, String_eq, [], none, some, true, false, Bool, refl,
  arith, inl, inr, Bool-cases, if◌then◌else◌,
}
use srv6_ai_fabric.Netem.{one_of}
use srv6_ai_fabric.Scenario.{MrcSpec}
use srv6_ai_fabric.Scenario.Documents.{Fields, Yaml, get, only}
use srv6_ai_fabric.Configs.{agent_keys, any_of, emit_set, ev_keys, fields_of, env_payload}
use srv6_ai_fabric.Prelude.Dict.{keys}

module _ {F : Type 0} where
  abbrev pub first_of : Option (Yaml F) → Option (Yaml F) → Option (Yaml F)
  first_of none o = o
  first_of (some v) o = some v

  -- The value that a list of fields gives a key.
  abbrev pub given : String → List (String × Option (Yaml F)) → Option (Yaml F)
  given key [] = none
  given key ((k, o) ∷ fs) = if String_eq.beq k key then first_of o (given key fs) else given key fs

  get-emit_set :
      (key : String) (fs : List (String × Option (Yaml F))) → get key (emit_set fs) ≡ given key fs
  unfolding get emit_set
  get-emit_set key [] = refl
  get-emit_set key ((k, none) ∷ fs) = elim (Bool-cases (String_eq.beq k key)) [
    | inl here ↦ rw here (get-emit_set key fs)
    | inr away ↦ rw away (get-emit_set key fs)
  ]
  get-emit_set key ((k, some v) ∷ fs) = elim (Bool-cases (String_eq.beq k key)) [
    | inl here ↦ rw here refl
    | inr away ↦ rw away (get-emit_set key fs)
  ]

  abbrev all_known : List String → List (String × Option (Yaml F)) → Bool
  all_known keys [] = true
  all_known keys ((k, o) ∷ fs) = if one_of k keys then all_known keys fs else false

  only-emit_set :
      (keys : List String) (fs : List (String × Option (Yaml F)))
      → all_known keys fs ≡ true
      → only keys (emit_set fs) ≡ true
  unfolding only emit_set
  only-emit_set keys [] h = refl
  only-emit_set keys ((k, none) ∷ fs) h = ground (arith, only-emit_set keys fs)
  only-emit_set keys ((k, some v) ∷ fs) h = ground (arith, only-emit_set keys fs)

  first_of-none : (o : Option (Yaml F)) → first_of o none ≡ o
  first_of-none none = refl
  first_of-none (some v) = refl

  -- The env_payload has each tunable under its name.
  pub get-env_payload :
      (m : MrcSpec F) (key : String) {o : Option (Yaml F)}
      → given key (fields_of m) ≡ first_of o none
      → get key (env_payload m) ≡ o
  get-env_payload m key {o} h = get-emit_set key (fields_of m) ∙ h ∙ first_of-none o

  pub known-env_payload : (m : MrcSpec F) → only (agent_keys ++ ev_keys) (env_payload m) ≡ true
  unfolding one_of
  known-env_payload m = only-emit_set (agent_keys ++ ev_keys) (fields_of m) refl

  pub any_of-false :
      (d : Fields F)
      → any_of ev_keys d ≡ false
      → (get "probe_fail_threshold" d ≡ none)
        × (get "probe_recover_threshold" d ≡ none)
        × (get "loss_threshold" d ≡ none)
        × (get "loss_demote_consecutive" d ≡ none)
        × (get "min_active_planes" d ≡ none)
        × (get "rtt_ring_size" d ≡ none)
  unfolding any_of
  any_of-false d h = ground arith
