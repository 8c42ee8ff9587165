-- ===== src/Netem/Previews.antt =====
-- The dry run shows the live run (netem.py, `Netem.apply`).
use mathlib.Core.List.{append_assoc}
use srv6_ai_fabric.Topo.Addresses.{Fabric}
use srv6_ai_fabric.Netem.{Command, resolve}
use srv6_ai_fabric.Prelude.{
  ℕ_eq, String_eq, ℕ, List, Bool, Bool-cases, Option-cases, Result-cases, String, [], ap, inl, inr,
  map, ok, refl, sym, ◌++◌, ◌∙◌, ◌∷◌, ◌≡◌,
}
use srv6_ai_fabric.Netem.{
  Command, Completed, Fault, NetemState, NicTarget, apply, apply_nic, apply_nics, apply_pid, call,
  docker_inspect, pid_of, preview, resolve_container_pid, tc_add, tc_del,
}

-- The cards and tokens of the `tc qdisc add` commands, in the order that they were run.
unfoldable pub adds : List (Command × Bool) → List (String × List String)
adds [] = []
adds ((docker_inspect name, good) ∷ cs) = adds cs
adds ((tc_add pid ifname tokens, good) ∷ cs) = adds cs ++ ((ifname, tokens) ∷ [])
adds ((tc_del pid ifname, good) ∷ cs) = adds cs

-- The same of commands that are shown_adds.
unfoldable pub shown_adds : List Command → List (String × List String)
shown_adds [] = []
shown_adds (docker_inspect name ∷ cs) = shown_adds cs
shown_adds (tc_add pid ifname tokens ∷ cs) = (ifname, tokens) ∷ shown_adds cs
shown_adds (tc_del pid ifname ∷ cs) = shown_adds cs

shown_adds-append : (cs ds : List Command) → shown_adds (cs ++ ds) ≡ shown_adds cs ++ shown_adds ds
unfolding shown_adds
shown_adds-append [] ds = refl
shown_adds-append (docker_inspect name ∷ cs) ds = shown_adds-append cs ds
shown_adds-append (tc_add pid ifname tokens ∷ cs) ds =
    ap (λ l. (ifname, tokens) ∷ l) (shown_adds-append cs ds)
shown_adds-append (tc_del pid ifname ∷ cs) ds = shown_adds-append cs ds

-- What a turn of `preview` shows.
cards : List String → List NicTarget → List (String × List String)
cards tokens nics = map (λ nic. (nic.ifname, tokens)) nics

shown_adds-cards :
    (tokens : List String) (nics : List NicTarget)
    → shown_adds (map (λ nic. tc_add 0 nic.ifname tokens) nics) ≡ cards tokens nics
unfolding shown_adds cards
shown_adds-cards tokens [] = refl
shown_adds-cards tokens (nic ∷ nics) =
    ap (λ l. (nic.ifname, tokens) ∷ l) (shown_adds-cards tokens nics)

append_nil : {A : Type 0} (l : List A) → l ++ [] ≡ l
append_nil [] = refl
append_nil (x ∷ l) = ap (λ m. x ∷ m) (append_nil l)

module _ {ℓ} {World : Type ℓ} (runner : Command → World → Completed × World) where
  resolve_container_pid-adds :
      (topo container : String) (s : NetemState World)
      → adds ((resolve_container_pid runner topo container s).1).commands ≡ adds s.commands
  unfolding resolve_container_pid call adds
  resolve_container_pid-adds topo container s =
      elim (Option-cases (pid_of ((runner (docker_inspect container) s.world).0))) [
        | inl missing ↦ rw (resolve_container_pid, missing) refl
        | inr (pid, e) ↦ rw (resolve_container_pid, e) refl
      ]

  apply_pid-adds :
      (tokens : List String) (ifname : String) (pid : ℕ) (s : NetemState World) {u : Unit {0}}
      → (apply_pid runner tokens ifname pid s).0 ≡ ok u
      → adds ((apply_pid runner tokens ifname pid s).1).commands
        ≡ adds s.commands ++ ((ifname, tokens) ∷ [])
  unfolding apply_pid call adds
  apply_pid-adds tokens ifname pid s =
      elim (Bool-cases (((runner (tc_add pid ifname tokens) s.world).0).zero_code)) [
        | inl good ↦ rw good (λ e. refl)
        | inr bad ↦ rw bad (λ e. cc)
      ]

  apply_nic-adds :
      (topo : String) (tokens : List String) (nic : NicTarget) (s : NetemState World) {u : Unit {0}}
      → (apply_nic runner topo tokens nic s).0 ≡ ok u
      → adds ((apply_nic runner topo tokens nic s).1).commands
        ≡ adds s.commands ++ ((nic.ifname, tokens) ∷ [])
  unfolding apply_nic
  apply_nic-adds topo tokens nic s =
      let found = resolve_container_pid-adds topo nic.container s in
      elim (Result-cases ((resolve_container_pid runner topo nic.container s).0)) [
        | inl (pid, e) ↦
            rw (apply_nic, e)
              (λ good.
                apply_pid-adds tokens nic.ifname pid _ good
                ∙ ap (λ l. l ++ ((nic.ifname, tokens) ∷ [])) found)
        | inr (err, e) ↦ rw (apply_nic, e) (λ good. cc)
      ]

  apply_nics-adds :
      (nics : List NicTarget) (topo : String) (tokens : List String) (s : NetemState World)
      {u : Unit {0}}
      → (apply_nics runner topo tokens nics s).0 ≡ ok u
      → adds ((apply_nics runner topo tokens nics s).1).commands
        ≡ adds s.commands ++ cards tokens nics
  unfolding apply_nics cards
  apply_nics-adds [] topo tokens s = λ h. sym (append_nil (adds s.commands))
  apply_nics-adds (nic ∷ nics) topo tokens s =
      elim (Result-cases ((apply_nic runner topo tokens nic s).0)) [
        | inl (u, e) ↦
            rw (apply_nics, e)
              (λ good.
                apply_nics-adds nics topo tokens ((apply_nic runner topo tokens nic s).1) good
                ∙ ap (λ l. l ++ cards tokens nics) (apply_nic-adds topo tokens nic s e)
                ∙ append_assoc (adds s.commands) _ _)
        | inr (err, e) ↦ rw (apply_nics, e) (λ good. cc)
      ]

  apply-adds :
      (faults : List Fault) (f : Fabric) (topo : String) (s : NetemState World) {u : Unit {0}}
      → (apply runner f topo faults s).0 ≡ ok u
      → (cs : List Command) × (preview f faults ≡ ok cs)
        × (adds ((apply runner f topo faults s).1).commands ≡ adds s.commands ++ shown_adds cs)
  unfolding apply preview shown_adds
  apply-adds [] f topo s = λ h. ([], refl, sym (append_nil (adds s.commands)))
  apply-adds (fault ∷ faults) f topo s = elim (Result-cases (resolve f fault)) [
    | inl ((nics, tokens), r) ↦ elim (Result-cases ((apply_nics runner topo tokens nics s).0)) [
      | inl (u, e) ↦
          rw (apply, r, e)
            (λ good.
              let (cs, shows, same) =
                apply-adds faults f topo ((apply_nics runner topo tokens nics s).1) good in
              (
                map (λ nic. tc_add 0 nic.ifname tokens) nics ++ cs,
                rw shows refl,
                same
                    ∙ ap (λ l. l ++ shown_adds cs) (apply_nics-adds nics topo tokens s e)
                    ∙ append_assoc (adds s.commands) (cards tokens nics) (shown_adds cs)
                    ∙ ap (λ l. adds s.commands ++ (l ++ shown_adds cs))
                        (sym (shown_adds-cards tokens nics))
                    ∙ ap (λ l. adds s.commands ++ l)
                        (sym (shown_adds-append (map (λ nic. tc_add 0 nic.ifname tokens) nics) cs)),
              ))
      | inr (err, e) ↦ rw (apply, r, e) (λ good. cc)
    ]
    | inr (err, r) ↦ rw (apply, r) (λ good. cc)
  ]

  -- When `apply` ends in order, the dry run does too, and the `tc qdisc add` commands that were run are
  -- those that it shows, in its order, up to the process ids.
  pub apply-preview :
      (f : Fabric) (topo : String) (faults : List Fault) (world : World) {u : Unit {0}}
      → let fresh : NetemState World = record { world = world; applied = []; commands = [] } in
        (apply runner f topo faults fresh).0 ≡ ok u
        → (cs : List Command) × (preview f faults ≡ ok cs)
          × (adds ((apply runner f topo faults fresh).1).commands ≡ shown_adds cs)
  unfolding adds
  apply-preview f topo faults world good = apply-adds faults f topo _ good
