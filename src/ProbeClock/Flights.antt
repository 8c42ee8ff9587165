-- ===== src/ProbeClock/Flights.antt =====
-- How long a probe stays in flight (probe_clock.py): the calls that take it away are its reply, a sweep
-- after its timeout, and as many probes of its plane as fit.
use srv6_ai_fabric.Prelude.{
  Bool-cases, [], arith, inl, inr, some, suc, ℕ, ℕ_eq, ◌∷◌, ◌≡◌, ◌≢◌, ◌<◌, ◌≤◌, ◌+◌, ◌==◌,
  if◌then◌else◌, ap, ==_iff, List, Result-cases, get_elem?, get_elem?-set_ne, get_elem?-set_self,
  lt-length_of_get_elem?, set, subst, sym, ◌%◌, ◌∙◌, ◌⊎◌, Option-cases, refl,
}
use mathlib.Core.Option.{some-injective}
use srv6_ai_fabric.ProbeClock.{
  evict, PlaneClock, ProbeClock, emit, emit_plane, plane_clock, put_plane, match_plane, match_reply,
  matching, sweep_timeouts,
}
use srv6_ai_fabric.ProbeClock.Runs.{Call, emit_at, plane_clock-ok, reply_at, sweep_at, run}
use srv6_ai_fabric.ProbeClock.Places.{
  IsFlying, place_of-insert_ne, place_of-delete_ne, place_of-evict, place_of-sweep_plane,
}
use srv6_ai_fabric.ProbeClock.Runs.{after}
use srv6_ai_fabric.ProbeClock.Sweep.{swept, get_elem?-sweep_planes}
use srv6_ai_fabric.Prelude.{All}

-- The plane's clock still has the probe, after at most `n` more probes of the plane.
abbrev pub IsOut : ℕ → ℕ → ℕ → PlaneClock → Type 0
IsOut req_id tx n p =
    (k : ℕ) × (k ≤ n)
    × (p.next_req_id ≡ (req_id + 1 + k) % 0x10000)
    × IsFlying req_id tx k p.outstanding

abbrev pub IsInFlight : ProbeClock → ℕ → ℕ → ℕ → ℕ → Type 0
IsInFlight c plane req_id tx n =
    (p : PlaneClock) × (get_elem? c.planes plane ≡ some p) × IsOut req_id tx n p

IsOut-more :
    (req_id tx n m : ℕ) (p : PlaneClock) → n ≤ m → IsOut req_id tx n p → IsOut req_id tx m p
IsOut-more req_id tx n m p le (k, few, next, flying) = (k, omega arith, next, flying)

emit_plane-IsOut :
    (req_id tx n cap plane now : ℕ) (p : PlaneClock)
    → req_id < 0x10000
    → suc n < cap
    → suc n < 0x10000
    → IsOut req_id tx n p
    → IsOut req_id tx (suc n) (emit_plane cap plane now p)
unfolding emit_plane
emit_plane-IsOut req_id tx n cap plane now p u16 room fresh (k, few, next, (b, at, behind_few)) =
    let other : p.next_req_id ≢ req_id = λ e. (let same = sym next ∙ e in omega arith) in
    let kept = place_of-evict req_id cap tx b p.outstanding at (omega arith) in
    let (c, at', few') =
      place_of-insert_ne req_id p.next_req_id tx
        (record { req_id = p.next_req_id; plane = plane; tx_ns = now }) (evict cap p.outstanding)
        other kept in
    (suc k, omega arith, omega (arith, next), (c, at', omega arith))

put_plane-IsInFlight :
    (c : ProbeClock) (plane req_id tx n m j : ℕ) (p₀ x : PlaneClock)
    → n ≤ m
    → get_elem? c.planes j ≡ some p₀
    → (j ≡ plane → IsOut req_id tx n p₀ → IsOut req_id tx m x)
    → IsInFlight c plane req_id tx n
    → IsInFlight (put_plane c j x) plane req_id tx m
put_plane-IsInFlight c plane req_id tx n m j p₀ x le read grows (p, at, flying) =
    elim (Bool-cases (j == plane)) [
      | inl here ↦
          let e : j ≡ plane = (==_iff j plane).0 here in
          let same : p ≡ p₀ =
            some-injective p p₀ (sym at ∙ ap (get_elem? c.planes) (sym e) ∙ read) in
          (
            x,
            subst (λ i. get_elem? (set c.planes j x) i ≡ some x) e
                (get_elem?-set_self c.planes j x (lt-length_of_get_elem? c.planes j read)),
            grows e (subst (IsOut req_id tx n) same flying),
          )
      | inr away ↦ (
        p,
        get_elem?-set_ne c.planes j plane x (ground arith) ∙ at,
        IsOut-more req_id tx n m p le flying,
      )
    ]

-- The calls that leave the probe alone: no reply to it, and no sweep once its timeout is over.
abbrev pub Spares : ℕ → ℕ → ℕ → ℕ → Call → Type 0
Spares req_id plane tx timeout_ns (emit_at p now) = Unit
Spares req_id plane tx timeout_ns (reply_at r p echoed now) = (r ≢ req_id) ⊎ (p ≢ plane)
Spares req_id plane tx timeout_ns (sweep_at now) = now < tx + timeout_ns

-- The probes of a plane that the calls emit.
abbrev pub emits : ℕ → List Call → ℕ
emits plane [] = 0
emits plane (emit_at p now ∷ es) = if p == plane then suc (emits plane es) else emits plane es
emits plane (reply_at r p echoed now ∷ es) = emits plane es
emits plane (sweep_at now ∷ es) = emits plane es

emit-IsInFlight :
    (c : ProbeClock) (plane req_id tx n p now : ℕ)
    → req_id < 0x10000
    → n + emits plane (emit_at p now ∷ []) < c.max_outstanding
    → n + emits plane (emit_at p now ∷ []) < 0x10000
    → IsInFlight c plane req_id tx n
    → IsInFlight (after c (emit_at p now)) plane req_id tx (n + emits plane (emit_at p now ∷ []))
unfolding after emit
emit-IsInFlight c plane req_id tx n p now u16 room fresh flying =
    elim (Result-cases (plane_clock c p)) [
      | inl (p₀, e) ↦
          let (_, read) = plane_clock-ok c p e in
          rw (e, after)
            (put_plane-IsInFlight c plane req_id tx n _ p p₀ _ (omega arith) read
              (λ same out.
                let one : emits plane (emit_at p now ∷ []) ≡ 1 = ground arith in
                IsOut-more req_id tx (suc n) _ (emit_plane c.max_outstanding p now p₀)
                  (omega (arith, one))
                  (emit_plane-IsOut req_id tx n c.max_outstanding p now p₀ u16 (omega (arith, one))
                    (omega (arith, one)) out))
              flying)
      | inr (x, e) ↦
          let (q, at, out) = flying in
          rw (e, after) (q, at, IsOut-more req_id tx n _ q (omega arith) out)
    ]

match-IsInFlight :
    (c : ProbeClock) (plane req_id tx n r p echoed now : ℕ) (p₀ : PlaneClock)
    → (r ≢ req_id) ⊎ (p ≢ plane)
    → get_elem? c.planes p ≡ some p₀
    → IsInFlight c plane req_id tx n
    → IsInFlight (match_plane c p r now p₀ (matching p₀ r echoed)).0 plane req_id tx n
unfolding match_plane
match-IsInFlight c plane req_id tx n r p echoed now p₀ spared read flying =
    elim (Option-cases (matching p₀ r echoed)) [
      | inl stale ↦ rw stale flying
      | inr (q, hit) ↦ rw hit (
          put_plane-IsInFlight c plane req_id tx n n p p₀ _ (omega arith) read
            (λ same out. elim spared [
              | inr away ↦ absurd (away same)
              | inl other ↦
                  let (k, few, next, (b, at, behind_few)) = out in
                  let (d, at', fewer) = place_of-delete_ne req_id r tx p₀.outstanding other at in
                  (k, few, next, (d, at', omega arith))
            ])
            flying)
    ]

reply-IsInFlight :
    (c : ProbeClock) (plane req_id tx n r p echoed now : ℕ)
    → (r ≢ req_id) ⊎ (p ≢ plane)
    → IsInFlight c plane req_id tx n
    → IsInFlight (after c (reply_at r p echoed now)) plane req_id tx n
unfolding after match_reply
reply-IsInFlight c plane req_id tx n r p echoed now spared flying =
    elim (Result-cases (plane_clock c p)) [
      | inl (p₀, e) ↦
          let (_, read) = plane_clock-ok c p e in
          rw (e, after) (match-IsInFlight c plane req_id tx n r p echoed now p₀ spared read flying)
      | inr (x, e) ↦ rw (e, after) flying
    ]

sweep-IsInFlight :
    (c : ProbeClock) (plane req_id tx n now : ℕ)
    → now < tx + c.probe_timeout_ns
    → IsInFlight c plane req_id tx n
    → IsInFlight (after c (sweep_at now)) plane req_id tx n
unfolding after sweep_timeouts
sweep-IsInFlight c plane req_id tx n now young (p, at, (k, few, next, (b, place, behind_few))) =
    let t = c.probe_timeout_ns in
    let (d, place', fewer) =
      place_of-sweep_plane req_id tx t now (0 + plane) p.outstanding young place in
    (
      swept t now (0 + plane) p,
      get_elem?-sweep_planes t now 0 plane c.planes at,
      (k, few, next, (d, place', omega arith)),
    )

after-limits :
    (c : ProbeClock) (e : Call)
    → ((after c e).max_outstanding ≡ c.max_outstanding)
      × ((after c e).probe_timeout_ns ≡ c.probe_timeout_ns)
unfolding after emit match_reply match_plane sweep_timeouts
after-limits c (emit_at plane now) = ground arith
after-limits c (reply_at req_id plane tx now) = ground arith
after-limits c (sweep_at now) = (refl, refl)

-- Through calls that spare it, with fewer probes of its plane than fit, a probe stays in flight.
pub run-IsInFlight :
    (c : ProbeClock) (es : List Call) (plane req_id tx n : ℕ)
    → req_id < 0x10000
    → All (Spares req_id plane tx c.probe_timeout_ns) es
    → n + emits plane es < c.max_outstanding
    → n + emits plane es < 0x10000
    → IsInFlight c plane req_id tx n
    → IsInFlight (run c es) plane req_id tx (n + emits plane es)
unfolding run
run-IsInFlight c [] plane req_id tx n u16 spared room fresh (p, at, out) =
    (p, at, IsOut-more req_id tx n _ p (omega arith) out)
run-IsInFlight c (emit_at p now ∷ es) plane req_id tx n u16 (one, spared) room fresh flying =
    let split : n + emits plane (emit_at p now ∷ []) + emits plane es
        ≡ n + emits plane (emit_at p now ∷ es) =
      ground arith in
    let (cap, timeout) = after-limits c (emit_at p now) in
    subst (IsInFlight (run (after c (emit_at p now)) es) plane req_id tx) split (
      run-IsInFlight (after c (emit_at p now)) es plane req_id tx _ u16
        (subst (λ t. All (Spares req_id plane tx t) es) (sym timeout) spared)
        (omega (arith, split, cap)) (omega (arith, split))
        (emit-IsInFlight c plane req_id tx n p now u16 (omega (arith, split)) (omega (arith, split))
          flying))
run-IsInFlight c (reply_at r p echoed now ∷ es) plane req_id tx n u16 (one, spared) room fresh
      flying =
    let (cap, timeout) = after-limits c (reply_at r p echoed now) in
    run-IsInFlight (after c (reply_at r p echoed now)) es plane req_id tx n u16
      (subst (λ t. All (Spares req_id plane tx t) es) (sym timeout) spared) (omega (arith, cap))
      (omega arith) (reply-IsInFlight c plane req_id tx n r p echoed now one flying)
run-IsInFlight c (sweep_at now ∷ es) plane req_id tx n u16 (one, spared) room fresh flying =
    let (cap, timeout) = after-limits c (sweep_at now) in
    run-IsInFlight (after c (sweep_at now)) es plane req_id tx n u16
      (subst (λ t. All (Spares req_id plane tx t) es) (sym timeout) spared) (omega (arith, cap))
      (omega arith) (sweep-IsInFlight c plane req_id tx n now one flying)
