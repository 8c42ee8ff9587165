-- ===== src/Reorder/Bins.antt =====
-- The bins of a histogram of distances, sorted (reorder.py, `FlowStats.reorder_hist`).
use srv6_ai_fabric.Prelude.{
  ℕ_eq, ℕ, [], ap, arith, if◌then◌else◌, leb, refl, ◌+◌, ◌∙◌, ◌∷◌, ◌≡◌, ◌⊎◌, Bool, Bool-cases,
  false, inl, inr, none, true, ◌<◌, ◌==◌, ◌||◌,
}
use srv6_ai_fabric.Prelude.Dict.{Dict, Distinct, lookup}
use srv6_ai_fabric.Reorder.{insert_item, sorted_items}

-- The packets at a distance of `d` or less.
unfoldable pub at_most : ℕ → Dict ℕ ℕ → ℕ
at_most d [] = 0
at_most d ((k, n) ∷ hist) = (if leb k d then n else 0) + at_most d hist

-- `d` is a bin of the histogram.
unfoldable pub is_bin : ℕ → Dict ℕ ℕ → Bool
is_bin d [] = false
is_bin d ((k, n) ∷ hist) = (k == d) || is_bin d hist

-- The bins ascend.
abbrev pub IsAscending : Dict ℕ ℕ → Type 0
IsAscending [] = Unit
IsAscending ((k, n) ∷ hist) = ((d : ℕ) → is_bin d hist ≡ true → k < d) × IsAscending hist

pub at_most-insert_item :
    (d : ℕ) (e : ℕ × ℕ) (hist : Dict ℕ ℕ) → at_most d (insert_item e hist) ≡ at_most d (e ∷ hist)
unfolding at_most insert_item
at_most-insert_item d e [] = refl
at_most-insert_item d e (f ∷ hist) = ground (arith, at_most-insert_item d e hist)

pub at_most-sorted_items :
    (d : ℕ) (hist : Dict ℕ ℕ) → at_most d (sorted_items hist) ≡ at_most d hist
unfolding at_most sorted_items
at_most-sorted_items d [] = refl
at_most-sorted_items d (e ∷ hist) =
    at_most-insert_item d e (sorted_items hist)
    ∙ ap (λ n. (if leb (e.0) d then e.1 else 0) + n) (at_most-sorted_items d hist)

pub is_bin-insert_item :
    (d : ℕ) (e : ℕ × ℕ) (hist : Dict ℕ ℕ) → is_bin d (insert_item e hist) ≡ is_bin d (e ∷ hist)
unfolding insert_item is_bin
is_bin-insert_item d e [] = refl
is_bin-insert_item d e (f ∷ hist) = ground (arith, is_bin-insert_item d e hist)

pub is_bin-sorted_items : (d : ℕ) (hist : Dict ℕ ℕ) → is_bin d (sorted_items hist) ≡ is_bin d hist
unfolding is_bin sorted_items
is_bin-sorted_items d [] = refl
is_bin-sorted_items d (e ∷ hist) =
    is_bin-insert_item d e (sorted_items hist)
    ∙ ap (λ b. (e.0 == d) || b) (is_bin-sorted_items d hist)

pub insert_item-IsAscending :
    (e : ℕ × ℕ) (hist : Dict ℕ ℕ)
    → is_bin (e.0) hist ≡ false
    → IsAscending hist
    → IsAscending (insert_item e hist)
unfolding insert_item is_bin
insert_item-IsAscending e [] new h = (λ d b. cc, tt)
insert_item-IsAscending e (f ∷ hist) new h = elim (Bool-cases (leb (e.0) (f.0))) [
  | inl before ↦ rw before (λ d b. ground (arith, h.0 d), h)
  | inr after ↦ rw after (
    λ d b. ground (arith, is_bin-insert_item d e hist, h.0 d),
    insert_item-IsAscending e hist (ground arith) h.1,
  )
]

pub is_bin-lookup : (d : ℕ) (hist : Dict ℕ ℕ) → lookup d hist ≡ none → is_bin d hist ≡ false
unfolding lookup is_bin
is_bin-lookup d [] h = refl
is_bin-lookup d ((k, n) ∷ hist) h = ground (arith, is_bin-lookup d hist)

pub sorted_items-IsAscending : (hist : Dict ℕ ℕ) → Distinct hist → IsAscending (sorted_items hist)
unfolding sorted_items
sorted_items-IsAscending [] h = tt
sorted_items-IsAscending (e ∷ hist) h =
    insert_item-IsAscending e (sorted_items hist)
      (is_bin-sorted_items (e.0) hist ∙ is_bin-lookup (e.0) hist h.0)
      (sorted_items-IsAscending hist h.1)

pub at_most-below :
    (k : ℕ) (hist : Dict ℕ ℕ) → ((d : ℕ) → is_bin d hist ≡ true → k < d) → at_most k hist ≡ 0
unfolding at_most is_bin
at_most-below k [] h = refl
at_most-below k ((j, n) ∷ hist) h =
    let j_above : k < j = h j (ground arith) in
    ground (arith, at_most-below k hist (λ d b. h d (ground arith)))

pub at_most_head :
    (k n : ℕ) (bins : Dict ℕ ℕ) → IsAscending ((k, n) ∷ bins) → at_most k ((k, n) ∷ bins) ≡ n
unfolding at_most
at_most_head k n bins h = ground (arith, at_most-below k bins h.0)

pub at_most_tail :
    (d k n : ℕ) (bins : Dict ℕ ℕ) → k < d → at_most d ((k, n) ∷ bins) ≡ n + at_most d bins
unfolding at_most
at_most_tail d k n bins h = ground arith

pub is_bin-cases :
    (d k n : ℕ) (bins : Dict ℕ ℕ)
    → is_bin d ((k, n) ∷ bins) ≡ true
    → (d ≡ k) ⊎ (is_bin d bins ≡ true)
unfolding is_bin
is_bin-cases d k n bins h = ground arith

pub is_bin_head : (k n : ℕ) (bins : Dict ℕ ℕ) → is_bin k ((k, n) ∷ bins) ≡ true
unfolding is_bin
is_bin_head k n bins = ground arith

pub is_bin_tail :
    (d k n : ℕ) (bins : Dict ℕ ℕ) → is_bin d bins ≡ true → is_bin d ((k, n) ∷ bins) ≡ true
unfolding is_bin
is_bin_tail d k n bins h = ground arith

pub is_bin_nil : (d : ℕ) → is_bin d [] ≡ true → ⊥
unfolding is_bin
is_bin_nil d h = cc
