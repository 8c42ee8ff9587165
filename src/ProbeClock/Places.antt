-- ===== src/ProbeClock/Places.antt =====
-- The place of a probe among its plane's outstanding ones (probe_clock.py): what each operation on the
-- dict does to it.
use srv6_ai_fabric.Prelude.{
  Bool-cases, Option, [], arith, inl, inr, length, none, some, suc, ℕ, ℕ_eq, ◌∷◌, ◌≡◌, ◌≢◌, ◌<◌,
  ◌≤◌, ◌+◌, ◌==◌, if◌then◌else◌, ap, false,
}
use srv6_ai_fabric.ProbeClock.Sweep.{length-sweep_plane}
use srv6_ai_fabric.Prelude.Dict.{Dict, length-insert-le, length-delete-le, delete, insert, lookup}
use srv6_ai_fabric.ProbeClock.{OutstandingProbe, evict, sweep_plane, expired}

-- When the probe was sent, and how many stand behind it.
unfoldable pub place_of : ℕ → Dict ℕ OutstandingProbe → Option (ℕ × ℕ)
place_of req_id [] = none
place_of req_id ((k, q) ∷ m) = if k == req_id then some (q.tx_ns, length m) else place_of req_id m

-- The probe was sent at `tx`, and at most `n` stand behind it.
abbrev pub IsFlying : ℕ → ℕ → ℕ → Dict ℕ OutstandingProbe → Type 0
IsFlying req_id tx n m = (b : ℕ) × (place_of req_id m ≡ some (tx, b)) × (b ≤ n)

pub place_of-insert_ne :
    (req_id k tx : ℕ) (v : OutstandingProbe) (m : Dict ℕ OutstandingProbe) {b : ℕ}
    → k ≢ req_id
    → place_of req_id m ≡ some (tx, b)
    → (c : ℕ) × (place_of req_id (insert k v m) ≡ some (tx, c)) × (c ≤ suc b)
unfolding place_of insert
place_of-insert_ne req_id k tx v [] ne h = cc
place_of-insert_ne req_id k tx v ((i, w) ∷ m) {b} ne h = elim (Bool-cases (i == req_id)) [
  | inl ours ↦
      let known : (w.tx_ns ≡ tx) × (length m ≡ b) = ground arith in
      let other : (i == k) ≡ false = ground arith in
      (
        length (insert k v m),
        rw (other, ours) (ap (λ x. some (x, length (insert k v m))) known.0),
        omega (arith, known.1, length-insert-le k v m),
      )
  | inr not_ours ↦
      let later : place_of req_id m ≡ some (tx, b) = ground arith in
      elim (Bool-cases (i == k)) [
        | inl same ↦ (b, rw (same, not_ours) later, omega arith)
        | inr away ↦
            let (c, e, few) = place_of-insert_ne req_id k tx v m ne later in
            (c, rw (away, not_ours) e, few)
      ]
]

pub place_of-insert_new :
    (req_id : ℕ) (v : OutstandingProbe) (m : Dict ℕ OutstandingProbe)
    → lookup req_id m ≡ none
    → place_of req_id (insert req_id v m) ≡ some (v.tx_ns, 0)
unfolding place_of insert lookup
place_of-insert_new req_id v [] h = ground arith
place_of-insert_new req_id v ((i, w) ∷ m) h = ground (arith, place_of-insert_new req_id v m)

pub place_of-delete_ne :
    (req_id k tx : ℕ) (m : Dict ℕ OutstandingProbe) {b : ℕ}
    → k ≢ req_id
    → place_of req_id m ≡ some (tx, b)
    → (c : ℕ) × (place_of req_id (delete k m) ≡ some (tx, c)) × (c ≤ b)
unfolding place_of delete
place_of-delete_ne req_id k tx [] ne h = cc
place_of-delete_ne req_id k tx ((i, w) ∷ m) {b} ne h = elim (Bool-cases (i == req_id)) [
  | inl ours ↦
      let known : (w.tx_ns ≡ tx) × (length m ≡ b) = ground arith in
      let other : (i == k) ≡ false = ground arith in
      (
        length (delete k m),
        rw (other, ours) (ap (λ x. some (x, length (delete k m))) known.0),
        omega (arith, known.1, length-delete-le k m),
      )
  | inr not_ours ↦
      let later : place_of req_id m ≡ some (tx, b) = ground arith in
      elim (Bool-cases (i == k)) [
        | inl same ↦ (b, rw same later, omega arith)
        | inr away ↦
            let (c, e, few) = place_of-delete_ne req_id k tx m ne later in
            (c, rw (away, not_ours) e, few)
      ]
]

pub place_of-evict :
    (req_id cap tx b : ℕ) (m : Dict ℕ OutstandingProbe)
    → place_of req_id m ≡ some (tx, b)
    → suc b < cap
    → place_of req_id (evict cap m) ≡ some (tx, b)
unfolding place_of evict
place_of-evict req_id cap tx b [] h room = cc
place_of-evict req_id cap tx b ((i, w) ∷ m) h room = ground arith

pub place_of-sweep_plane :
    (req_id tx timeout_ns now i : ℕ) (m : Dict ℕ OutstandingProbe) {b : ℕ}
    → now < tx + timeout_ns
    → place_of req_id m ≡ some (tx, b)
    → (c : ℕ) × (place_of req_id (sweep_plane timeout_ns now i m).0 ≡ some (tx, c)) × (c ≤ b)
unfolding place_of sweep_plane
place_of-sweep_plane req_id tx timeout_ns now i [] young h = cc
place_of-sweep_plane req_id tx timeout_ns now i ((k, q) ∷ m) {b} young h =
    let rest = (sweep_plane timeout_ns now i m).0 in
    elim (Bool-cases (k == req_id)) [
      | inl ours ↦
          let known : (q.tx_ns ≡ tx) × (length m ≡ b) = ground arith in
          let early : expired timeout_ns now q ≡ false = ground arith in
          (
            length rest,
            rw (early, ours) (ap (λ x. some (x, length rest)) known.0),
            omega (arith, known.1, length-sweep_plane timeout_ns now i m),
          )
      | inr not_ours ↦
          let later : place_of req_id m ≡ some (tx, b) = ground arith in
          let (c, e, few) = place_of-sweep_plane req_id tx timeout_ns now i m young later in
          elim (Bool-cases (expired timeout_ns now q)) [
            | inl late ↦ (c, rw late e, few)
            | inr early ↦ (c, rw (early, not_ours) e, few)
          ]
    ]

pub lookup-evict :
    (req_id cap : ℕ) (m : Dict ℕ OutstandingProbe)
    → lookup req_id m ≡ none
    → lookup req_id (evict cap m) ≡ none
unfolding lookup evict
lookup-evict req_id cap [] h = h
lookup-evict req_id cap ((i, w) ∷ m) h = ground arith

pub lookup-place_of :
    (req_id tx b : ℕ) (m : Dict ℕ OutstandingProbe)
    → place_of req_id m ≡ some (tx, b)
    → (q : OutstandingProbe) × (lookup req_id m ≡ some q) × (q.tx_ns ≡ tx)
unfolding place_of lookup
lookup-place_of req_id tx b [] h = cc
lookup-place_of req_id tx b ((i, w) ∷ m) h = elim (Bool-cases (i == req_id)) [
  | inl here ↦ (w, ground arith, ground arith)
  | inr away ↦
      let (q, there, same) = lookup-place_of req_id tx b m (ground arith) in (q, ground arith, same)
]
