-- ===== src/Prelude/Dict.antt =====
-- Python's `dict`: an association list in insertion order. Storing under a key that is there keeps
-- its place; a new key goes to the end.
use Prim.Native.Nat.{suc, ◌≤◌}
use mathlib.Core.Path.{◌≡◌, refl, subst, sym}
use mathlib.Core.Logic.{◌≢◌, ◌⊎◌}
use mathlib.Core.Option.{Option, none, some}
use mathlib.Core.List.{Memᴰ, List, [], ◌∷◌, ◌++◌, map}
use native.Mathlib.Omega.{arith}
use srv6_ai_fabric.Prelude.Tests.{if◌then◌else◌}
use srv6_ai_fabric.Prelude.Lists.{length}
use srv6_ai_fabric.Prelude.Errors.{Eq}
use srv6_ai_fabric.Prelude.{Bool-cases, inl, inr}

abbrev pub Dict {ℓ κ} : Type ℓ → Type κ → Type (ℓ ⊔ κ)
Dict K V = List (K × V)

module _ {ℓ κ} {K : Type ℓ} {V : Type κ} where
  abbrev pub keys : Dict K V → List K
  keys = map (λ e. e.0)

  abbrev pub values : Dict K V → List V
  values = map (λ e. e.1)

module _ {ℓ κ} {K : Type ℓ} {V : Type κ} ⦃e : Eq K⦄ where
  unfoldable pub lookup : K → Dict K V → Option V
  lookup k [] = none
  lookup k ((j, v) ∷ m) = if e.beq j k then some v else lookup k m

  unfoldable pub insert : K → V → Dict K V → Dict K V
  insert k v [] = (k, v) ∷ []
  insert k v ((j, w) ∷ m) = if e.beq j k then (j, v) ∷ m else (j, w) ∷ insert k v m

  -- `del d[k]`, and `d.pop(k, None)`
  unfoldable pub delete : K → Dict K V → Dict K V
  delete k [] = []
  delete k ((j, w) ∷ m) = if e.beq j k then m else (j, w) ∷ delete k m

  pub lookup-insert :
      (k j : K) (v : V) (m : Dict K V)
      → lookup j (insert k v m) ≡ (if e.beq k j then some v else lookup j m)
  unfolding lookup insert
  lookup-insert k j v [] = refl
  lookup-insert k j v ((i, w) ∷ m) =
      ground (arith, e.beq_iff k j, e.beq_iff i k, e.beq_iff i j, lookup-insert k j v m)

  pub lookup-insert_self : (k : K) (v : V) (m : Dict K V) → lookup k (insert k v m) ≡ some v
  lookup-insert_self k v m = ground (arith, lookup-insert k k v m, e.beq_iff k k)

  pub lookup-insert_ne :
      (k j : K) (v : V) (m : Dict K V) → k ≢ j → lookup j (insert k v m) ≡ lookup j m
  lookup-insert_ne k j v m h = ground (arith, lookup-insert k j v m, e.beq_iff k j)

  -- Storing under a key that is there keeps the keys and their order.
  pub keys-insert_old :
      (k : K) (v : V) {w : V} (m : Dict K V) → lookup k m ≡ some w → keys (insert k v m) ≡ keys m
  unfolding lookup insert
  keys-insert_old k v [] h = cc
  keys-insert_old k v {w = u} ((i, w) ∷ m) h = ground (arith, keys-insert_old k v {w = u} m)

  -- A key stands among the keys, or nothing is stored under it.
  pub key_cases : (k : K) (m : Dict K V) → Memᴰ k (keys m) ⊎ (lookup k m ≡ none)
  unfolding lookup
  key_cases k [] = inr refl
  key_cases k ((i, w) ∷ m) = elim (Bool-cases (e.beq i k)) [
    | inl here ↦ inl (Memᴰ.head (sym ((e.beq_iff i k).0 here)))
    | inr away ↦ elim (key_cases k m) [
      | inl later ↦ inl (Memᴰ.tail later)
      | inr absent ↦ inr (rw (lookup, away) absent)
    ]
  ]

  pub insert-new :
      (k : K) (v : V) (m : Dict K V) → lookup k m ≡ none → insert k v m ≡ m ++ ((k, v) ∷ [])
  unfolding lookup insert
  insert-new k v [] h = refl
  insert-new k v ((i, w) ∷ m) h = ground (arith, insert-new k v m)

  pub length-insert-le : (k : K) (v : V) (m : Dict K V) → length (insert k v m) ≤ suc (length m)
  unfolding insert
  length-insert-le k v [] = omega arith
  length-insert-le k v ((i, w) ∷ m) = ground (arith, length-insert-le k v m)

  pub length-delete-le : (k : K) (m : Dict K V) → length (delete k m) ≤ length m
  unfolding delete
  length-delete-le k [] = omega arith
  length-delete-le k ((i, w) ∷ m) = ground (arith, length-delete-le k m)

  pub length-delete :
      (k : K) {v : V} (m : Dict K V) → lookup k m ≡ some v → suc (length (delete k m)) ≡ length m
  unfolding lookup delete
  length-delete k [] h = cc
  length-delete k {v = u} ((i, w) ∷ m) h = ground (arith, length-delete k {v = u} m)

  pub lookup-delete_ne : (k j : K) (m : Dict K V) → k ≢ j → lookup j (delete k m) ≡ lookup j m
  unfolding lookup delete
  lookup-delete_ne k j [] h = refl
  lookup-delete_ne k j ((i, w) ∷ m) h =
      ground (arith, e.beq_iff k j, e.beq_iff i k, e.beq_iff i j, lookup-delete_ne k j m h)

  -- No key stands twice.
  abbrev pub Distinct : Dict K V → Type κ
  Distinct [] = Unit
  Distinct ((k, v) ∷ m) = (lookup k m ≡ none) × Distinct m

  pub Distinct-insert : (k : K) (v : V) (m : Dict K V) → Distinct m → Distinct (insert k v m)
  unfolding insert lookup
  Distinct-insert k v [] h = (refl, tt)
  Distinct-insert k v ((i, w) ∷ m) h = elim (Bool-cases (e.beq i k)) [
    | inl here ↦ rw here h
    | inr away ↦ rw away (
      ground (arith, lookup-insert k i v m, e.beq_iff i k, e.beq_iff k i),
      Distinct-insert k v m h.1,
    )
  ]

  pub lookup-delete_absent :
      (k j : K) (m : Dict K V) → lookup j m ≡ none → lookup j (delete k m) ≡ none
  unfolding lookup delete
  lookup-delete_absent k j [] h = refl
  lookup-delete_absent k j ((i, w) ∷ m) h = ground (arith, lookup-delete_absent k j m)

  pub Distinct-delete : (k : K) (m : Dict K V) → Distinct m → Distinct (delete k m)
  unfolding delete lookup
  Distinct-delete k [] h = tt
  Distinct-delete k ((i, w) ∷ m) h = elim (Bool-cases (e.beq i k)) [
    | inl here ↦ rw here h.1
    | inr away ↦ rw away (lookup-delete_absent k i m h.0, Distinct-delete k m h.1)
  ]

  -- A deleted key is gone.
  pub lookup-delete_self : (k : K) (m : Dict K V) → Distinct m → lookup k (delete k m) ≡ none
  unfolding delete lookup
  lookup-delete_self k [] h = refl
  lookup-delete_self k ((i, w) ∷ m) h = elim (Bool-cases (e.beq i k)) [
    | inl here ↦ rw here (subst (λ j. lookup j m ≡ none) ((e.beq_iff i k).0 here) h.0)
    | inr away ↦ rw (away, lookup, away) (lookup-delete_self k m h.1)
  ]
