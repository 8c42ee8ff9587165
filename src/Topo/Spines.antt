-- ===== src/Topo/Spines.antt =====
-- Transit spines and flow hashes (topo.py, `spine_for` and `hash5`).
use srv6_ai_fabric.Prelude.{
  sym, ◌≡◌, ◌≤◌, ◌<◌, ◌⊎◌, ℕ, All, Bool-cases, List, Option-cases, [], arith, inl, inr, ltb, lt→ltb,
  refl, some, ◌*◌, ◌+◌, ◌∷◌,
}
use srv6_ai_fabric.Topo.{
  spine_for, ReferencePair, reference_pairs_spines, reference_spine, spine_of_pair,
}
use native.Mathlib.Nat.{mod-lt}

-- What the proofs use of the table.
abbrev IsReference : ReferencePair → Type 0
IsReference p = (p.spine < 8) × (15 ≤ p.lo + p.hi)

reference_spine_bound :
    (a b : ℕ) (ps : List ReferencePair) (s : ℕ)
    → All IsReference ps
    → reference_spine a b ps ≡ some s
    → (s < 8) × (15 ≤ a + b)
unfolding reference_spine
reference_spine_bound a b [] s all h = cc
reference_spine_bound a b (p ∷ ps) s all h =
    ground (arith, all.0, reference_spine_bound a b ps s all.1)

All-IsReference : All IsReference reference_pairs_spines
All-IsReference = (
  (omega arith, omega arith),
  (
    (omega arith, omega arith),
    (
      (omega arith, omega arith),
      (
        (omega arith, omega arith),
        (
          (omega arith, omega arith),
          (
            (omega arith, omega arith),
            ((omega arith, omega arith), ((omega arith, omega arith), tt)),
          ),
        ),
      ),
    ),
  ),
)

spine_of_pair-lt :
    (l n a b : ℕ)
    → 0 < n
    → (8 ≤ n) ⊎ (l ≤ 8)
    → a < l
    → b < l
    → (a < b) ⊎ (a ≡ b)
    → spine_of_pair l n a b < n
unfolding spine_of_pair
spine_of_pair-lt l n a b one shape ha hb order =
    elim (Option-cases (reference_spine a b reference_pairs_spines)) [
      | inl missing ↦ rw (missing, spine_of_pair) (mod-lt (a * l + b) one)
      | inr (s, found) ↦
          rw (found, spine_of_pair)
            (in_range (reference_spine_bound a b _ s All-IsReference found) shape order)
    ]
  where
    in_range : {s : ℕ} → (s < 8) × (15 ≤ a + b) → (8 ≤ n) ⊎ (l ≤ 8) → (a < b) ⊎ (a ≡ b) → s < n
    in_range h (inl wide) o = omega (arith, h.0)
    in_range h (inr narrow) (inl o) = absurd (omega (arith, h.1))
    in_range h (inr narrow) (inr o) = absurd (omega (arith, h.1))

trichotomy : (a b : ℕ) → (a < b) ⊎ (b < a) ⊎ (a ≡ b)
trichotomy a b = elim (Bool-cases (ltb a b)) [
  | inl less ↦ inl (ground arith)
  | inr not_less ↦ elim (Bool-cases (ltb b a)) [
    | inl more ↦ inr (inl (ground arith))
    | inr e ↦ inr (inr (ground arith))
  ]
]

-- The spine of a pair does not depend on the direction, and it is one of the fabric's spines, for
-- hosts of the fabric, when there are at least 8 spines, or at most 8 leaves (then no reference pair
-- is a pair of hosts).
pub spine_for_lem :
    (num_leaves num_spines src dst : ℕ)
    → 0 < num_spines
    → (8 ≤ num_spines) ⊎ (num_leaves ≤ 8)
    → src < num_leaves
    → dst < num_leaves
    → (spine_for num_leaves num_spines src dst ≡ spine_for num_leaves num_spines dst src)
      × (spine_for num_leaves num_spines src dst < num_spines)
unfolding spine_for
spine_for_lem l n src dst one shape hs hd = elim (trichotomy src dst) [
  | inl less ↦ (
    ground arith,
    rw (lt→ltb src dst less) (spine_of_pair-lt l n src dst one shape hs hd (inl less)),
  )
  | inr (inl more) ↦
      (ground arith, ground (arith, spine_of_pair-lt l n dst src one shape hd hs (inl more)))
  | inr (inr same) ↦
      (rw same refl, ground (arith, spine_of_pair-lt l n dst src one shape hd hs (inr (sym same))))
]
