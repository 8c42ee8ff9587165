-- ===== src/Netem/Undo.antt =====
-- Faults are undone (netem.py, `Netem.apply` and `Netem.revert`).
use srv6_ai_fabric.Prelude.{
  ℕ_eq, String_eq, ℕ, List, Bool, String, [], arith, false, if◌then◌else◌, ok, refl, sym, true,
  ◌&&◌, ◌==◌, ◌∙◌, ◌∷◌, ◌≡◌, Bool-cases, Option-cases, Result-cases, ap, inl, inr, ◌||◌,
}
use srv6_ai_fabric.Topo.Addresses.{Fabric}
use srv6_ai_fabric.Netem.{
  Command, Completed, NetemState, call, docker_inspect, revert_entries, tc_add, tc_del, Fault,
  NicTarget, apply, apply_nic, apply_nics, apply_pid, pid_of, resolve, resolve_container_pid,
  revert,
}

-- Takes an entry away if it is the last one made.
unfoldable pub drop_last_made : ℕ → String → List (ℕ × String) → List (ℕ × String)
drop_last_made pid ifname [] = []
drop_last_made pid ifname ((p, i) ∷ rest) =
    if (p == pid) && String_eq.beq i ifname then rest else (p, i) ∷ rest

-- The faults that stand after the commands, the last first: one that was added in order stands until a
-- deletion of it is asked for.
unfoldable pub standing : List (Command × Bool) → List (ℕ × String)
standing [] = []
standing ((docker_inspect name, good) ∷ cs) = standing cs
standing ((tc_add pid ifname tokens, true) ∷ cs) = (pid, ifname) ∷ standing cs
standing ((tc_add pid ifname tokens, false) ∷ cs) = standing cs
standing ((tc_del pid ifname, good) ∷ cs) = drop_last_made pid ifname (standing cs)

drop_last_made_self :
    (pid : ℕ) (ifname : String) (rest : List (ℕ × String))
    → drop_last_made pid ifname ((pid, ifname) ∷ rest) ≡ rest
unfolding drop_last_made
drop_last_made_self pid ifname rest = ground (arith, String_eq.beq_iff ifname ifname)

or_true : (b : Bool) → (b || true) ≡ true
or_true true = refl
or_true false = refl

module _ {ℓ} {World : Type ℓ} (runner : Command → World → Completed × World) where
  -- The list of applied faults is what stands.
  abbrev pub IsRecorded : NetemState World → Type 0
  IsRecorded s = standing s.commands ≡ s.applied

  call_inspect-IsRecorded :
      (name : String) (s : NetemState World)
      → IsRecorded s
      → IsRecorded ((call runner (docker_inspect name) s).1)
  unfolding call standing
  call_inspect-IsRecorded name s h = h

  revert_entries-IsRecorded :
      (entries : List (ℕ × String)) (quiet : Bool) (s : NetemState World)
      → standing s.commands ≡ entries
      → s.applied ≡ entries
      → IsRecorded ((revert_entries runner quiet entries s).1)
  unfolding revert_entries call standing
  revert_entries-IsRecorded [] quiet s up applied = up ∙ sym applied
  revert_entries-IsRecorded ((pid, ifname) ∷ rest) quiet s up applied =
      let gone : drop_last_made pid ifname (standing s.commands) ≡ rest =
        ap (drop_last_made pid ifname) up ∙ drop_last_made_self pid ifname rest in
      elim (Bool-cases (((runner (tc_del pid ifname) s.world).0).zero_code || quiet)) [
        | inl on ↦ rw on (revert_entries-IsRecorded rest quiet _ gone refl)
        | inr stop ↦ rw stop gone
      ]

  -- A quiet `revert` never raises, and leaves nothing recorded.
  revert_entries_quiet :
      (entries : List (ℕ × String)) (s : NetemState World)
      → s.applied ≡ entries
      → ((revert_entries runner true entries s).0 ≡ ok tt)
        × (((revert_entries runner true entries s).1).applied ≡ [])
  unfolding revert_entries call
  revert_entries_quiet [] s h = (refl, h)
  revert_entries_quiet ((pid, ifname) ∷ rest) s h =
      rw (or_true (((runner (tc_del pid ifname) s.world).0).zero_code))
        (revert_entries_quiet rest _ refl)

  resolve_container_pid-IsRecorded :
      (topo container : String) (s : NetemState World)
      → IsRecorded s
      → IsRecorded ((resolve_container_pid runner topo container s).1)
  unfolding resolve_container_pid call standing
  resolve_container_pid-IsRecorded topo container s h =
      elim (Option-cases (pid_of ((runner (docker_inspect container) s.world).0))) [
        | inl missing ↦ rw (resolve_container_pid, missing) h
        | inr (pid, e) ↦ rw (resolve_container_pid, e) h
      ]

  apply_pid-IsRecorded :
      (tokens : List String) (ifname : String) (pid : ℕ) (s : NetemState World)
      → IsRecorded s
      → IsRecorded ((apply_pid runner tokens ifname pid s).1)
  unfolding apply_pid call standing revert
  apply_pid-IsRecorded tokens ifname pid s h =
      elim (Bool-cases (((runner (tc_add pid ifname tokens) s.world).0).zero_code)) [
        | inl good ↦ rw good (ap (λ l. (pid, ifname) ∷ l) h)
        | inr bad ↦ rw bad (revert_entries-IsRecorded s.applied true _ h refl)
      ]

  apply_nic-IsRecorded :
      (topo : String) (tokens : List String) (nic : NicTarget) (s : NetemState World)
      → IsRecorded s
      → IsRecorded ((apply_nic runner topo tokens nic s).1)
  unfolding apply_nic
  apply_nic-IsRecorded topo tokens nic s h =
      let found = resolve_container_pid-IsRecorded topo nic.container s h in
      elim (Result-cases ((resolve_container_pid runner topo nic.container s).0)) [
        | inl (pid, e) ↦ rw (apply_nic, e) (apply_pid-IsRecorded tokens nic.ifname pid _ found)
        | inr (err, e) ↦ rw (apply_nic, e) found
      ]

  apply_nics-IsRecorded :
      (nics : List NicTarget) (topo : String) (tokens : List String) (s : NetemState World)
      → IsRecorded s
      → IsRecorded ((apply_nics runner topo tokens nics s).1)
  unfolding apply_nics
  apply_nics-IsRecorded [] topo tokens s h = h
  apply_nics-IsRecorded (nic ∷ nics) topo tokens s h =
      let one = apply_nic-IsRecorded topo tokens nic s h in
      elim (Result-cases ((apply_nic runner topo tokens nic s).0)) [
        | inl (u, e) ↦ rw (apply_nics, e) (apply_nics-IsRecorded nics topo tokens _ one)
        | inr (err, e) ↦ rw (apply_nics, e) one
      ]

  apply-IsRecorded :
      (faults : List Fault) (f : Fabric) (topo : String) (s : NetemState World)
      → IsRecorded s
      → IsRecorded ((apply runner f topo faults s).1)
  unfolding apply
  apply-IsRecorded [] f topo s h = h
  apply-IsRecorded (fault ∷ faults) f topo s h = elim (Result-cases (resolve f fault)) [
    | inl ((nics, tokens), r) ↦
        let one = apply_nics-IsRecorded nics topo tokens s h in
        elim (Result-cases ((apply_nics runner topo tokens nics s).0)) [
          | inl (u, e) ↦ rw (apply, r, e) (apply-IsRecorded faults f topo _ one)
          | inr (err, e) ↦ rw (apply, r, e) one
        ]
    | inr (err, r) ↦ rw (apply, r) h
  ]

  revert_entries_nil :
      (quiet : Bool) (s : NetemState World) → revert_entries runner quiet [] s ≡ (ok tt, s)
  unfolding revert_entries
  revert_entries_nil quiet s = refl

  -- Whatever the processes answer and whether `apply` raises or not, a quiet `revert` after it ends in
  -- order, asks for the deletion of each fault that still stands and leaves none recorded; another one
  -- does nothing.
  pub apply-revert :
      (f : Fabric) (topo : String) (faults : List Fault) (s : NetemState World)
      → IsRecorded s
      → let applied = (apply runner f topo faults s).1 in
        let reverted = (revert runner true applied).1 in
        ((revert runner true applied).0 ≡ ok tt)
        × (reverted.applied ≡ [])
        × (standing reverted.commands ≡ [])
        × (revert runner true reverted ≡ (ok tt, reverted))
  unfolding revert
  apply-revert f topo faults s h =
      let after = (apply runner f topo faults s).1 in
      let recorded = apply-IsRecorded faults f topo s h in
      let quiet = revert_entries_quiet after.applied after refl in
      let kept = revert_entries-IsRecorded after.applied true after recorded refl in
      (
        quiet.0,
        quiet.1,
        kept ∙ quiet.1,
        ap (λ l. revert_entries runner true l ((revert runner true after).1)) quiet.1
            ∙ revert_entries_nil true ((revert runner true after).1),
      )
