-- ===== src/ProbeClock/Sweep.antt =====
-- What `sweep_timeouts` removes and reports (probe_clock.py).
use srv6_ai_fabric.Prelude.{
  ℕ_eq, Bool-cases, inl, inr, subst, List, [], length, length-append, get_elem?, some, zero, suc,
  ◌∷◌, sym, ap, ◌≤◌, List, [], arith, get_elem?, length, refl, some, ℕ, ◌+◌, ◌<◌, ◌∷◌, ◌≡◌, ◌↔◌,
  ◌∙◌,
}
use mathlib.Core.Option.{some-injective}
use mathlib.Core.List.{Memᴰ}
use mathlib.Core.List.Memᴰ
use srv6_ai_fabric.ProbeClock.{
  OutstandingProbe, PlaneClock, ProbeClock, expired, sweep_plane, sweep_planes, sweep_timeouts,
}
use srv6_ai_fabric.Prelude.Dict.{Dict}

-- The probes that a sweep of one plane leaves are those still within the timeout.
kept-from :
    (timeout_ns now i : ℕ) (e : ℕ × OutstandingProbe) (m : Dict ℕ OutstandingProbe)
    → Memᴰ e (sweep_plane timeout_ns now i m).0
    → Memᴰ e m × (now < e.1.tx_ns + timeout_ns)
unfolding sweep_plane
kept-from timeout_ns now i e [] = λ h. absurd (Memᴰ.not-nil h)
kept-from timeout_ns now i e ((k, q) ∷ m) = elim (Bool-cases (expired timeout_ns now q)) [
  | inl late ↦
      rw late
        (λ h. let (there, young) = kept-from timeout_ns now i e m h in (Memᴰ.tail there, young))
  | inr early ↦ rw early (λ h. elim (Memᴰ.cases_cons h) [
    | inl same ↦
        (Memᴰ.head same, subst (λ e. now < e.1.tx_ns + timeout_ns) (sym same) (ground arith))
    | inr later ↦
        let (there, young) = kept-from timeout_ns now i e m later in (Memᴰ.tail there, young)
  ])
]

kept-to :
    (timeout_ns now i : ℕ) (e : ℕ × OutstandingProbe) (m : Dict ℕ OutstandingProbe)
    → Memᴰ e m
    → now < e.1.tx_ns + timeout_ns
    → Memᴰ e (sweep_plane timeout_ns now i m).0
unfolding sweep_plane
kept-to timeout_ns now i e [] h young = absurd (Memᴰ.not-nil h)
kept-to timeout_ns now i e ((k, q) ∷ m) h young = elim (Bool-cases (expired timeout_ns now q)) [
  | inl late ↦ rw late (elim (Memᴰ.cases_cons h) [
    | inl same ↦
        let young' : now < q.tx_ns + timeout_ns =
          subst (λ e. now < e.1.tx_ns + timeout_ns) same young in
        absurd (ground arith)
    | inr later ↦ kept-to timeout_ns now i e m later young
  ])
  | inr early ↦ rw early (elim (Memᴰ.cases_cons h) [
    | inl same ↦ Memᴰ.head same
    | inr later ↦ Memᴰ.tail (kept-to timeout_ns now i e m later young)
  ])
]

-- A probe on the list `m` that was sent the timeout ago or earlier.
abbrev pub IsLate : ℕ → ℕ → ℕ → Dict ℕ OutstandingProbe → Type 0
IsLate timeout_ns now req_id m =
    (q : OutstandingProbe) × Memᴰ (req_id, q) m × (q.tx_ns + timeout_ns ≤ now)

gone-from :
    (timeout_ns now i plane req_id : ℕ) (m : Dict ℕ OutstandingProbe)
    → Memᴰ (plane, req_id) (sweep_plane timeout_ns now i m).1
    → (plane ≡ i) × IsLate timeout_ns now req_id m
unfolding sweep_plane
gone-from timeout_ns now i plane req_id [] = λ h. absurd (Memᴰ.not-nil h)
gone-from timeout_ns now i plane req_id ((k, q) ∷ m) =
    elim (Bool-cases (expired timeout_ns now q)) [
      | inl late ↦ rw late (λ h. elim (Memᴰ.cases_cons h) [
        | inl same ↦ (ap (λ x. x.0) same, (q, Memᴰ.head (ap (λ x. (x.1, q)) same), ground arith))
        | inr later ↦
            let (e, (r, there, old)) = gone-from timeout_ns now i plane req_id m later in
            (e, (r, Memᴰ.tail there, old))
      ])
      | inr early ↦ rw early (λ h.
          let (e, (r, there, old)) = gone-from timeout_ns now i plane req_id m h in
          (e, (r, Memᴰ.tail there, old)))
    ]

gone-to :
    (timeout_ns now i req_id : ℕ) (m : Dict ℕ OutstandingProbe)
    → IsLate timeout_ns now req_id m
    → Memᴰ (i, req_id) (sweep_plane timeout_ns now i m).1
unfolding sweep_plane
gone-to timeout_ns now i req_id [] (r, h, old) = absurd (Memᴰ.not-nil h)
gone-to timeout_ns now i req_id ((k, q) ∷ m) (r, h, old) =
    elim (Bool-cases (expired timeout_ns now q)) [
      | inl late ↦ rw late (elim (Memᴰ.cases_cons h) [
        | inl same ↦ Memᴰ.head (ap (λ x. (i, x.0)) same)
        | inr later ↦ Memᴰ.tail (gone-to timeout_ns now i req_id m (r, later, old))
      ])
      | inr early ↦ rw early (elim (Memᴰ.cases_cons h) [
        | inl same ↦
            let old' : q.tx_ns + timeout_ns ≤ now =
              subst (λ x. x.1.tx_ns + timeout_ns ≤ now) same old in
            absurd (ground arith)
        | inr later ↦ gone-to timeout_ns now i req_id m (r, later, old)
      ])
    ]

pub length-sweep_plane :
    (timeout_ns now i : ℕ) (m : Dict ℕ OutstandingProbe)
    → length (sweep_plane timeout_ns now i m).0 + length (sweep_plane timeout_ns now i m).1
      ≡ length m
unfolding sweep_plane
length-sweep_plane timeout_ns now i [] = refl
length-sweep_plane timeout_ns now i ((k, q) ∷ m) =
    ground (arith, length-sweep_plane timeout_ns now i m)

out-from :
    (timeout_ns now i plane req_id : ℕ) (ps : List PlaneClock)
    → Memᴰ (plane, req_id) (sweep_planes timeout_ns now i ps).1
    → (j : ℕ) × (p : PlaneClock) × (plane ≡ i + j)
      × (get_elem? ps j ≡ some p)
      × IsLate timeout_ns now req_id p.outstanding
unfolding sweep_planes
out-from timeout_ns now i plane req_id [] h = absurd (Memᴰ.not-nil h)
out-from timeout_ns now i plane req_id (p ∷ ps) h =
    elim (Memᴰ.append_cases (sweep_plane timeout_ns now i p.outstanding).1 h) [
      | inl mine ↦
          let (e, late) = gone-from timeout_ns now i plane req_id p.outstanding mine in
          (0, p, e ∙ omega arith, refl, late)
      | inr later ↦
          let (j, q, e, at, late) = out-from timeout_ns now (suc i) plane req_id ps later in
          (suc j, q, omega (arith, e), at, late)
    ]

out-to :
    (timeout_ns now i j req_id : ℕ) (ps : List PlaneClock) {p : PlaneClock}
    → get_elem? ps j ≡ some p
    → IsLate timeout_ns now req_id p.outstanding
    → Memᴰ (i + j, req_id) (sweep_planes timeout_ns now i ps).1
unfolding sweep_planes
out-to timeout_ns now i j req_id [] at late = cc
out-to timeout_ns now i zero req_id (p ∷ ps) {p = q} at late =
    let late' : IsLate timeout_ns now req_id p.outstanding =
      subst (λ (q : PlaneClock). IsLate timeout_ns now req_id q.outstanding)
        (sym (some-injective p q at)) late in
    let here = gone-to timeout_ns now i req_id p.outstanding late' in
    let gone = (sweep_plane timeout_ns now i p.outstanding).1 in
    Memᴰ.append_left (sweep_planes timeout_ns now (suc i) ps).1
      (subst (λ n. Memᴰ {A = ℕ × ℕ} (n, req_id) gone) (omega arith) here)
out-to timeout_ns now i (suc j) req_id (p ∷ ps) at late =
    let there = out-to timeout_ns now (suc i) j req_id ps at late in
    let more = (sweep_planes timeout_ns now (suc i) ps).1 in
    Memᴰ.append_right (sweep_plane timeout_ns now i p.outstanding).1
      (subst (λ n. Memᴰ {A = ℕ × ℕ} (n, req_id) more) (omega arith) there)

-- A plane after a sweep.
abbrev pub swept : ℕ → ℕ → ℕ → PlaneClock → PlaneClock
swept timeout_ns now i p = record p {
  outstanding = (sweep_plane timeout_ns now i p.outstanding).0;
  timeout_count = p.timeout_count + length (sweep_plane timeout_ns now i p.outstanding).1;
}

pub get_elem?-sweep_planes :
    (timeout_ns now i j : ℕ) (ps : List PlaneClock) {p : PlaneClock}
    → get_elem? ps j ≡ some p
    → get_elem? (sweep_planes timeout_ns now i ps).0 j ≡ some (swept timeout_ns now (i + j) p)
unfolding sweep_planes
get_elem?-sweep_planes timeout_ns now i j [] at = cc
get_elem?-sweep_planes timeout_ns now i zero (p ∷ ps) {p = q} at =
    subst (λ n. some (swept timeout_ns now i p) ≡ some (swept timeout_ns now n q)) (omega arith)
      (ap (λ r. some (swept timeout_ns now i r)) (some-injective p q at))
get_elem?-sweep_planes timeout_ns now i (suc j) (p ∷ ps) {p = q} at =
    get_elem?-sweep_planes timeout_ns now (suc i) j ps at
    ∙ ap (λ n. some (swept timeout_ns now n q)) (omega arith)

-- The timeouts that the planes have counted.
unfoldable pub timeouts : List PlaneClock → ℕ
timeouts [] = 0
timeouts (p ∷ ps) = p.timeout_count + timeouts ps

timeouts-sweep_planes :
    (timeout_ns now i : ℕ) (ps : List PlaneClock)
    → timeouts (sweep_planes timeout_ns now i ps).0
      ≡ timeouts ps + length (sweep_planes timeout_ns now i ps).1
unfolding sweep_planes timeouts
timeouts-sweep_planes timeout_ns now i [] = refl
timeouts-sweep_planes timeout_ns now i (p ∷ ps) = omega (
  arith,
  timeouts-sweep_planes timeout_ns now (suc i) ps,
  length-append (sweep_plane timeout_ns now i p.outstanding).1
      (sweep_planes timeout_ns now (suc i) ps).1,
)

-- After a sweep a plane still has the probes that were sent less than `probe_timeout_ns` ago, and no
-- other. The sweep reports a request id for the plane if, and only if, the plane had a probe of that id
-- that was sent `probe_timeout_ns` ago or earlier. The plane's timeouts grow by the probes that it
-- loses, the timeouts of all planes by the length of the report, and the next id and the other counts
-- of the plane stay.
pub sweep_timeouts_lem :
    (c : ProbeClock) (now plane req_id : ℕ) (p : PlaneClock) (q : OutstandingProbe)
    → get_elem? c.planes plane ≡ some p
    → (c' : ProbeClock) × (out : List (ℕ × ℕ)) × (p' : PlaneClock) × (sweep_timeouts c now
        ≡ (c', out))
      × (get_elem? c'.planes plane ≡ some p')
      × (Memᴰ (req_id, q) p'.outstanding
          ↔ (Memᴰ (req_id, q) p.outstanding × (now < q.tx_ns + c.probe_timeout_ns)))
      × (Memᴰ (plane, req_id) out ↔ IsLate c.probe_timeout_ns now req_id p.outstanding)
      × (p'.timeout_count + length p'.outstanding ≡ p.timeout_count + length p.outstanding)
      × (timeouts c'.planes ≡ timeouts c.planes + length out)
      × (p'.next_req_id ≡ p.next_req_id)
      × (p'.emit_count ≡ p.emit_count)
      × (p'.reply_count ≡ p.reply_count)
unfolding sweep_timeouts
sweep_timeouts_lem c now plane req_id p q at =
    let t = c.probe_timeout_ns in
    (
      _,
      _,
      swept t now plane p,
      refl,
      get_elem?-sweep_planes t now 0 plane c.planes at
          ∙ ap (λ n. some (swept t now n p)) (omega arith),
      (
        kept-from t now plane (req_id, q) p.outstanding,
        λ h. kept-to t now plane (req_id, q) p.outstanding h.0 h.1,
      ),
      (
        λ h.
            let (j, r, e, at', late) = out-from t now 0 plane req_id c.planes h in
            let e' : plane ≡ j = omega (arith, e) in
            let same : r ≡ p =
              some-injective r p (sym at' ∙ ap (get_elem? c.planes) (sym e') ∙ at) in
            subst (λ (r : PlaneClock). IsLate t now req_id r.outstanding) same late,
        λ late.
            subst (λ n. Memᴰ {A = ℕ × ℕ} (n, req_id) (sweep_planes t now 0 c.planes).1)
              (omega arith) (out-to t now 0 plane req_id c.planes at late),
      ),
      omega (arith, length-sweep_plane t now plane p.outstanding),
      timeouts-sweep_planes t now 0 c.planes,
      refl,
      refl,
      refl,
    )
