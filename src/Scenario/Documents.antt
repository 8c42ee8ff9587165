-- ===== src/Scenario/Documents.antt =====
-- srv6_fabric/mrc/scenario.py: parsed documents, their keys and hosts, the pairs and the faults.
use srv6_ai_fabric.Prelude.{
  ◌>>◌, ℕ_eq, String_eq, ℕ, List, Bool, Option, Result, String, [], false, guard, if◌then◌else◌,
  key_error, ltb, map, none, not, ok, raise, require, some, suc, true, value_error, ◌&&◌, ◌++◌,
  ◌==◌, ◌>>=◌, ◌∷◌,
}
use srv6_ai_fabric.Prelude.Dict.{Dict, lookup}
use srv6_ai_fabric.Prelude.Int.{ℤ, pos}
use srv6_ai_fabric.Policy.{known_tenant}
use srv6_ai_fabric.Topo.Addresses.{Fabric}
use srv6_ai_fabric.Netem.{one_of, parse_target, normalize_spec, host_name}
use srv6_ai_fabric.Scenario.Texts.{words, rate_text}

mutual
  pub data Yaml (F : Type 0) : Type 0 where
    null : Yaml F
    bool : Bool → Yaml F
    int : ℤ → Yaml F
    float : F → Yaml F
    str : String → Yaml F
    seq : Items F → Yaml F
    mapping : Fields F → Yaml F

  pub data Items (F : Type 0) : Type 0 where
    nil : Items F
    cons : Yaml F → Items F → Items F

  pub data Fields (F : Type 0) : Type 0 where
    end : Fields F
    entry : String → Yaml F → Fields F → Fields F

pub record FlowPair : Type 0 where
  pub tenant : String
  pub src : ℕ
  pub dst : ℕ

abbrev pub src_host : FlowPair → String
src_host p = host_name p.tenant p.src

abbrev pub dst_host : FlowPair → String
dst_host p = host_name p.tenant p.dst

pub record FaultSpec : Type 0 where
  pub target : String
  pub spec : String

abbrev pub reference_pairs : List (ℕ × ℕ)
reference_pairs = (0, 15) ∷ (1, 14) ∷ (2, 13) ∷ (3, 12) ∷ (4, 11) ∷ (5, 10) ∷ (6, 9) ∷ (7, 8) ∷ []

abbrev pub reference_pairs_4 : List (ℕ × ℕ)
reference_pairs_4 = (0, 7) ∷ (1, 6) ∷ (2, 5) ∷ (3, 4) ∷ []

abbrev pub pairs_for : String → List (ℕ × ℕ) → List FlowPair
pairs_for tenant = map (λ p. record { tenant = tenant; src = p.0; dst = p.1 })

unfoldable pub named_pair_sets : Dict String (List FlowPair)
named_pair_sets =
    ("green-pairs-8", pairs_for "green" reference_pairs)
    ∷ ("yellow-pairs-8", pairs_for "yellow" reference_pairs)
    ∷ ("green-pairs-4", pairs_for "green" reference_pairs_4)
    ∷ ("yellow-pairs-4", pairs_for "yellow" reference_pairs_4)
    ∷ ("green-00-15", pairs_for "green" ((0, 15) ∷ []))
    ∷ ("yellow-00-15", pairs_for "yellow" ((0, 15) ∷ []))
    ∷ []

unfoldable pub host_id_of : ℕ → Option ℤ → Result ℕ
host_id_of num_leaves (some (pos n)) = guard (ltb n num_leaves) value_error >> ok n
host_id_of num_leaves _ = raise value_error

unfoldable pub positive_rate : Option ℤ → Result ℕ
positive_rate (some (pos (suc n))) = ok (suc n)
positive_rate _ = raise value_error

module _ {F : Type 0} where
  -- `d.get(key)`
  unfoldable pub get : String → Fields F → Option (Yaml F)
  get key end = none
  get key (entry k v d) = let rest = get key d in if String_eq.beq k key then some v else rest

  unfoldable pub has_all : List String → Fields F → Bool
  has_all [] d = true
  has_all (k ∷ ks) d = elim (get k d) [ none ↦ false | some _ ↦ has_all ks d ]

  unfoldable pub only : List String → Fields F → Bool
  only allowed end = true
  only allowed (entry k v d) = one_of k allowed && only allowed d

  unfoldable pub require_keys : Fields F → List String → List String → Result (Unit {0})
  require_keys d required optional =
      guard (has_all required d) value_error >> guard (only (required ++ optional) d) value_error

  -- `d[key]`
  abbrev pub item : String → Fields F → Result (Yaml F)
  item key d = require (get key d) key_error

  unfoldable pub text_of : Yaml F → Result String
  text_of (str s) = if String_eq.beq s "" then raise value_error else ok s
  text_of _ = raise value_error

  abbrev pub require_str : String → Fields F → Result String
  require_str key d = item key d >>= text_of

  -- The number of an `int`, which a `bool` is too.
  unfoldable pub int_of : Yaml F → Option ℤ
  int_of (int n) = some n
  int_of (bool true) = some (pos 1)
  int_of (bool false) = some (pos 0)
  int_of _ = none

  abbrev pub require_host_id : ℕ → String → Fields F → Result ℕ
  require_host_id num_leaves key d = do v ← item key d; host_id_of num_leaves (int_of v)

  unfoldable pub choice_of : List String → Yaml F → Result String
  choice_of choices (str s) = guard (known_tenant s choices) value_error >> ok s
  choice_of choices _ = raise value_error

  abbrev pub require_choice : List String → String → Fields F → Result String
  require_choice choices key d = item key d >>= choice_of choices

  unfoldable pub parse_rate : Yaml F → Result ℕ
  parse_rate (str s) = require (rate_text s) value_error
  parse_rate v = positive_rate (int_of v)

  -- An entry of a list of pairs.
  unfoldable pub resolve_pair : Fabric → Yaml F → Result FlowPair
  resolve_pair f (mapping d) = do
    require_keys d ("tenant" ∷ "src" ∷ "dst" ∷ []) []
    tenant ← require_choice f.tenants "tenant" d
    src ← require_host_id f.num_leaves "src" d
    dst ← require_host_id f.num_leaves "dst" d
    guard (not (src == dst)) value_error
    ok (record { tenant = tenant; src = src; dst = dst })
  resolve_pair f _ = raise value_error

  unfoldable pub resolve_list : Fabric → Items F → Result (List FlowPair)
  resolve_list f nil = ok []
  resolve_list f (cons v vs) = do
    pair ← resolve_pair f v
    rest ← resolve_list f vs
    ok (pair ∷ rest)

  unfoldable pub resolve_pairs : Fabric → Yaml F → Result (List FlowPair)
  resolve_pairs f (str s) = require (lookup s named_pair_sets) value_error
  resolve_pairs f (seq nil) = raise value_error
  resolve_pairs f (seq (cons v vs)) = resolve_list f (cons v vs)
  resolve_pairs f _ = raise value_error

  unfoldable pub validate_fault : Fabric → Yaml F → Result FaultSpec
  validate_fault f (mapping d) = do
    require_keys d ("kind" ∷ "target" ∷ "spec" ∷ []) []
    kind ← require_str "kind" d
    guard (String_eq.beq kind "netem") value_error
    target ← require_str "target" d
    spec ← require_str "spec" d
    nics ← parse_target f (words target)
    tokens ← normalize_spec (words spec)
    ok (record { target = target; spec = spec })
  validate_fault f _ = raise value_error

  unfoldable pub validate_faults : Fabric → Items F → Result (List FaultSpec)
  validate_faults f nil = ok []
  validate_faults f (cons v vs) = do
    fault ← validate_fault f v
    rest ← validate_faults f vs
    ok (fault ∷ rest)
