-- ===== src/ProbeClock/Planes.antt =====
-- What holds of the outstanding probes of one plane (probe_clock.py).
use srv6_ai_fabric.Prelude.{
  ℕ_eq, All, Bool-cases, [], arith, inl, inr, leb, length, none, refl, some, sym, ℕ, ◌+◌, ◌<◌, ◌∙◌,
  ◌∷◌, ◌≡◌, ◌≤◌,
}
use srv6_ai_fabric.ProbeClock.{
  OutstandingProbe, PlaneClock, emit_plane, evict, expired, new_plane_clock, sweep_plane,
}
use srv6_ai_fabric.Prelude.Dict.{
  Dict, Distinct, Distinct-delete, Distinct-insert, delete, insert, length-delete, length-delete-le,
  length-insert-le, lookup,
}

pub record IsTracked (max_outstanding : ℕ) (p : PlaneClock) : Type 0 where
  pub bounded : length p.outstanding ≤ max_outstanding
  pub distinct : Distinct p.outstanding
  pub keyed : All (λ (e : ℕ × OutstandingProbe). e.1.req_id ≡ e.0) p.outstanding
  pub id_u16 : p.next_req_id < 0x10000
  pub accounted : p.reply_count + p.timeout_count + length p.outstanding ≤ p.emit_count

pub new_plane_clock-IsTracked : (n : ℕ) → IsTracked n new_plane_clock
new_plane_clock-IsTracked n = record {
  bounded = omega arith;
  distinct = tt;
  keyed = tt;
  id_u16 = omega arith;
  accounted = omega arith;
}

abbrev Keyed : Dict ℕ OutstandingProbe → Type 0
Keyed = All (λ (e : ℕ × OutstandingProbe). e.1.req_id ≡ e.0)

insert-Keyed :
    (k : ℕ) (q : OutstandingProbe) (m : Dict ℕ OutstandingProbe)
    → q.req_id ≡ k
    → Keyed m
    → Keyed (insert k q m)
unfolding insert
insert-Keyed k q [] e h = (e, tt)
insert-Keyed k q ((j, w) ∷ m) e h = elim (Bool-cases (ℕ_eq.beq j k)) [
  | inl here ↦ rw here (e ∙ sym ((ℕ_eq.beq_iff j k).0 here), h.1)
  | inr away ↦ rw away (h.0, insert-Keyed k q m e h.1)
]

delete-Keyed : (k : ℕ) (m : Dict ℕ OutstandingProbe) → Keyed m → Keyed (delete k m)
unfolding delete
delete-Keyed k [] h = h
delete-Keyed k ((j, w) ∷ m) h = elim (Bool-cases (ℕ_eq.beq j k)) [
  | inl here ↦ rw here h.1
  | inr away ↦ rw away (h.0, delete-Keyed k m h.1)
]

-- Making room leaves less than the cap, when the cap is positive.
evict-room :
    (n : ℕ) (m : Dict ℕ OutstandingProbe)
    → 1 ≤ n
    → length m ≤ n
    → (length (evict n m) < n) × (length (evict n m) ≤ length m)
unfolding evict
evict-room n [] one h = (omega arith, omega arith)
evict-room n (e ∷ es) one h = (ground arith, ground arith)

evict-parts :
    (n : ℕ) (m : Dict ℕ OutstandingProbe)
    → Distinct m
    → Keyed m
    → Distinct (evict n m) × Keyed (evict n m)
unfolding evict
evict-parts n [] d k = (tt, tt)
evict-parts n (e ∷ es) d k = elim (Bool-cases (leb n (length (e ∷ es)))) [
  | inl full ↦ rw full (d.1, k.1)
  | inr room ↦ rw room (d, k)
]

pub emit_plane-IsTracked :
    (n plane now : ℕ) (p : PlaneClock)
    → 1 ≤ n
    → IsTracked n p
    → IsTracked n (emit_plane n plane now p)
unfolding emit_plane
emit_plane-IsTracked n plane now p one t =
    let m = evict n p.outstanding in
    let room = evict-room n p.outstanding one t.bounded in
    let parts = evict-parts n p.outstanding t.distinct t.keyed in
    let probe : OutstandingProbe = record { req_id = p.next_req_id; plane = plane; tx_ns = now } in
    let grows = length-insert-le p.next_req_id probe m in
    record {
      bounded = omega arith;
      distinct = Distinct-insert p.next_req_id probe m parts.0;
      keyed = insert-Keyed p.next_req_id probe m refl parts.1;
      id_u16 = omega arith;
      accounted = omega (arith, t.accounted);
    }

-- Removing an outstanding probe and counting its reply.
pub reply-IsTracked :
    (n req_id : ℕ) (p : PlaneClock) (q : OutstandingProbe)
    → lookup req_id p.outstanding ≡ some q
    → IsTracked n p
    → IsTracked n
        (record p { outstanding = delete req_id p.outstanding; reply_count = p.reply_count + 1 })
reply-IsTracked n req_id p q h t = record {
  bounded = omega (arith, length-delete-le req_id p.outstanding, t.bounded);
  distinct = Distinct-delete req_id p.outstanding t.distinct;
  keyed = delete-Keyed req_id p.outstanding t.keyed;
  id_u16 = t.id_u16;
  accounted = omega (arith, length-delete req_id {v = q} p.outstanding h, t.accounted);
}

-- A sweep only moves entries: none is kept and reported, none is lost.
length-sweep_plane :
    (timeout now plane : ℕ) (m : Dict ℕ OutstandingProbe)
    → length (sweep_plane timeout now plane m).0 + length (sweep_plane timeout now plane m).1
      ≡ length m
unfolding sweep_plane
length-sweep_plane timeout now plane [] = refl
length-sweep_plane timeout now plane ((k, q) ∷ m) =
    ground (arith, length-sweep_plane timeout now plane m)

sweep_plane-absent :
    (timeout now plane k : ℕ) (m : Dict ℕ OutstandingProbe)
    → lookup k m ≡ none
    → lookup k (sweep_plane timeout now plane m).0 ≡ none
unfolding sweep_plane lookup
sweep_plane-absent timeout now plane k [] h = refl
sweep_plane-absent timeout now plane k ((j, q) ∷ m) h =
    ground (arith, sweep_plane-absent timeout now plane k m)

sweep_plane-parts :
    (timeout now plane : ℕ) (m : Dict ℕ OutstandingProbe)
    → Distinct m
    → Keyed m
    → Distinct (sweep_plane timeout now plane m).0 × Keyed (sweep_plane timeout now plane m).0
unfolding sweep_plane
sweep_plane-parts timeout now plane [] d k = (tt, tt)
sweep_plane-parts timeout now plane ((j, q) ∷ m) d k =
    let rest = sweep_plane-parts timeout now plane m d.1 k.1 in
    elim (Bool-cases (expired timeout now q)) [
      | inl gone ↦ rw gone rest
      | inr kept ↦ rw kept ((sweep_plane-absent timeout now plane j m d.0, rest.0), (k.0, rest.1))
    ]

pub sweep-IsTracked :
    (n timeout now i : ℕ) (p : PlaneClock)
    → IsTracked n p
    → IsTracked n (record p {
      outstanding = (sweep_plane timeout now i p.outstanding).0;
      timeout_count = p.timeout_count + length (sweep_plane timeout now i p.outstanding).1;
    })
sweep-IsTracked n timeout now i p t =
    let split = length-sweep_plane timeout now i p.outstanding in
    let parts = sweep_plane-parts timeout now i p.outstanding t.distinct t.keyed in
    record {
      bounded = omega (arith, t.bounded);
      distinct = parts.0;
      keyed = parts.1;
      id_u16 = t.id_u16;
      accounted = omega (arith, t.accounted);
    }
