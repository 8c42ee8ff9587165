-- ===== src/Policy/Walks.antt =====
-- The walk to the next healthy plane (policy.py, `HealthAware.pick`).
use srv6_ai_fabric.Prelude.{
  ◌≡◌, ◌≤◌, ◌<◌, ◌⊎◌, ◌+◌, ◌-◌, ◌%◌, List, arith, false, true, inl, inr, refl, suc, zero, ℕ,
  Bool-cases, ltb, leb, subst, ltb→lt, ap, ◌∙◌,
}
use native.Mathlib.Nat.{mod-lt, mod-eq_of_lt, add-mod_left}
use srv6_ai_fabric.Policy.{set_size, mem, walk_forward, avoid_down}

-- The walk ends on a plane that is not down, or every plane on its way is.
walk_forward_lem :
    (n : ℕ) (down : List ℕ) (choice step k : ℕ)
    → 0 < n
    → ((mem (walk_forward n down choice step k) down ≡ false)
        × (walk_forward n down choice step k < n))
      ⊎ ((walk_forward n down choice step k ≡ choice)
          × ((j : ℕ) → step ≤ j → j < step + k → mem ((choice + j) % n) down ≡ true))
unfolding walk_forward
walk_forward_lem n down choice step zero one = inr (refl, λ j h h'. absurd (omega arith))
walk_forward_lem n down choice step (suc k) one =
    elim (Bool-cases (mem ((choice + step) % n) down)) [
      | inl hit ↦ elim (walk_forward_lem n down choice (suc step) k one) [
        | inl found ↦ inl (rw hit found)
        | inr (same, all) ↦
            inr (rw hit same, λ j h h'. further j h h' hit all (Bool-cases (ltb step j)))
      ]
      | inr free ↦ inl (rw free (free, mod-lt (choice + step) one))
    ]
  where
    further :
        (j : ℕ)
        → step ≤ j
        → j < step + suc k
        → mem ((choice + step) % n) down ≡ true
        → ((j : ℕ) → suc step ≤ j → j < suc step + k → mem ((choice + j) % n) down ≡ true)
        → (ltb step j ≡ true) ⊎ (ltb step j ≡ false)
        → mem ((choice + j) % n) down ≡ true
    further j h h' hit all (inl later) = all j (ground arith) (omega arith)
    further j h h' hit all (inr here) = let e : j ≡ step = ground arith in rw e hit

-- Every plane is met on the way, or is where the walk starts.
reached :
    (n choice q : ℕ)
    → choice < n
    → q < n
    → (q ≡ choice) ⊎ ((j : ℕ) × (1 ≤ j) × (j < 1 + (n - 1)) × ((choice + j) % n ≡ q))
reached n choice q hc hq = elim (Bool-cases (ltb choice q)) [
  | inl after ↦
      let h = ltb→lt choice q after in
      let e : choice + (q - choice) ≡ q = omega arith in
      inr (q - choice, omega arith, omega arith, ap (λ x. x % n) e ∙ mod-eq_of_lt hq)
  | inr not_after ↦ elim (Bool-cases (ltb q choice)) [
    | inl before ↦
        let h = ltb→lt q choice before in
        let e : choice + (n - choice + q) ≡ n + q = omega arith in
        inr (
          n - choice + q,
          omega arith,
          omega arith,
          ap (λ x. x % n) e ∙ add-mod_left n q ∙ mod-eq_of_lt hq,
        )
    | inr same ↦ inl (ground arith)
  ]
]

-- A plane that `HealthAware` picks is one of the fabric's, and it is not down, unless the down set
-- has as many planes as the fabric or every plane is in it; then it is the inner policy's choice.
pub avoid_down_lem :
    (n : ℕ) (down : List ℕ) (choice : ℕ)
    → choice < n
    → (avoid_down n down choice < n)
      × ((mem (avoid_down n down choice) down ≡ false)
          ⊎ ((avoid_down n down choice ≡ choice)
              × ((n ≤ set_size down) ⊎ ((q : ℕ) → q < n → mem q down ≡ true))))
unfolding avoid_down
avoid_down_lem n down choice h = elim (Bool-cases (mem choice down)) [
  | inr healthy ↦ rw healthy (h, inl healthy)
  | inl hit ↦ elim (Bool-cases (leb n (set_size down))) [
    | inl full ↦ rw (hit, full) (h, inr (refl, inl (ground arith)))
    | inr room ↦
        rw (hit, room) (walked hit (walk_forward_lem n down choice 1 (n - 1) (omega arith)))
  ]
]
  where
    walked :
        {w : ℕ}
        → mem choice down ≡ true
        → ((mem w down ≡ false) × (w < n))
          ⊎ ((w ≡ choice)
              × ((j : ℕ) → 1 ≤ j → j < 1 + (n - 1) → mem ((choice + j) % n) down ≡ true))
        → (w < n)
          × ((mem w down ≡ false)
              ⊎ ((w ≡ choice) × ((n ≤ set_size down) ⊎ ((q : ℕ) → q < n → mem q down ≡ true))))
    walked hit (inl (free, inside)) = (inside, inl free)
    walked hit (inr (same, all)) = (
      omega arith,
      inr (
        same,
        inr (λ q inside. elim (reached n choice q h inside) [
          | inl e ↦ rw e hit
          | inr (j, low, high, e) ↦ subst (λ x. mem x down ≡ true) e (all j low high)
        ]),
      ),
    )
