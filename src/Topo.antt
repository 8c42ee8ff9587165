-- ===== src/Topo.antt =====
-- srv6_fabric/topo.py: the identity of a flow with its hash, and the transit spine of a pair of
-- hosts. The numbers of spines and leaves come from a YAML file, so they are arguments.
pub mod Spines
pub mod Addresses
pub mod AddressTrips
use srv6_ai_fabric.Prelude.{
  Eq, arith, ◌&&◌, ◌∷◌, ◌==◌, ◌+◌, ◌*◌, ◌%◌, List, Option, String, [], if◌then◌else◌, ltb, none,
  some, ℕ, ◌^◌, Bool, true, ◌↔◌, ◌≡◌,
}
use Prim.Native.Nat.{bit_xor}
use text.Mathlib.Text.{◌==◌ as str_eq}
use text.Mathlib.TextEquality.{eq_iff}
use mathlib.Core.List.{foldl}

pub record FlowKey : Type 0 where
  pub src_addr : String
  pub dst_addr : String
  pub src_port : ℕ
  pub dst_port : ℕ

-- The equality that the dataclass derives.
abbrev same_flow : FlowKey → FlowKey → Bool
same_flow a b =
    str_eq a.src_addr b.src_addr
    && str_eq a.dst_addr b.dst_addr
    && (a.src_port == b.src_port)
    && (a.dst_port == b.dst_port)

pub same_flow_iff : (a b : FlowKey) → (same_flow a b ≡ true) ↔ (a ≡ b)
same_flow_iff a b = ground (arith, eq_iff a.src_addr b.src_addr, eq_iff a.dst_addr b.dst_addr)

instance abbrev pub FlowKey_eq : Eq FlowKey
FlowKey_eq = record { beq = same_flow; beq_iff = same_flow_iff }

-- The loop of `hash5` over the bytes of the canonical string: FNV-1a on 64 bits.
unfoldable pub fnv1a : List ℕ → ℕ
fnv1a = foldl (λ h b. bit_xor h b * 0x100000001b3 % 2 ^ 64) 0xcbf29ce484222325

-- `key_bytes` is Python's formatting of the canonical string, encoded.
abbrev pub hash5 : (FlowKey → List ℕ) → FlowKey → ℕ
hash5 key_bytes flow = fnv1a (key_bytes flow)

-- A pair of hosts, the lower id first, and its spine.
pub record ReferencePair : Type 0 where
  pub lo : ℕ
  pub hi : ℕ
  pub spine : ℕ

abbrev pair : ℕ → ℕ → ℕ → ReferencePair
pair lo hi spine = record { lo = lo; hi = hi; spine = spine }

abbrev pub reference_pairs_spines : List ReferencePair
reference_pairs_spines =
    pair 0 15 0
    ∷ pair 1 14 2
    ∷ pair 2 13 4
    ∷ pair 3 12 6
    ∷ pair 4 11 1
    ∷ pair 5 10 3
    ∷ pair 6 9 5
    ∷ pair 7 8 7
    ∷ []

-- `REFERENCE_PAIRS_SPINES.get((a, b))`
unfoldable pub reference_spine : ℕ → ℕ → List ReferencePair → Option ℕ
reference_spine a b [] = none
reference_spine a b (p ∷ ps) =
    let rest = reference_spine a b ps in if (p.lo == a) && (p.hi == b) then some p.spine else rest

-- `spine_for` for the ordered pair.
unfoldable pub spine_of_pair : ℕ → ℕ → ℕ → ℕ → ℕ
spine_of_pair num_leaves num_spines a b = elim (reference_spine a b reference_pairs_spines) [
  | some s ↦ s
  | none ↦ (a * num_leaves + b) % num_spines
]

unfoldable pub spine_for : ℕ → ℕ → ℕ → ℕ → ℕ
spine_for num_leaves num_spines src_id dst_id =
    if ltb src_id dst_id
    then spine_of_pair num_leaves num_spines src_id dst_id
    else spine_of_pair num_leaves num_spines dst_id src_id
