-- ===== src/Scenario/Checked.antt =====
-- What a validated scenario promises (scenario.py, `validate`).
use srv6_ai_fabric.Prelude.{
  ℕ_eq, String_eq, ℕ, List, >>=-eq-ok, All, Bool, Bool-cases, Option, String, [], arith, guard,
  guard-ok, inl, inr, ltb, ltb→lt, none, not, ok, ok-injective, refl, some, subst, true,
  value_error, ◌&&◌, ◌<◌, ◌==◌, ◌∷◌, ◌≡◌, ◌≢◌, ◌≤◌, require-ok,
}
use srv6_ai_fabric.Prelude.Dict.{Dict, lookup}
use srv6_ai_fabric.Prelude.Int.{ℤ, pos, negsuc}
use srv6_ai_fabric.Policy.{known_tenant}
use srv6_ai_fabric.Topo.Addresses.{Fabric}
use srv6_ai_fabric.Netem.{parse_target, normalize_spec, NicTarget}
use srv6_ai_fabric.Scenario.Documents.{
  FaultSpec, FlowPair, Yaml, bool, choice_of, float, host_id_of, int, mapping, named_pair_sets,
  null, pairs_for, reference_pairs, reference_pairs_4, seq, str, Items, cons, int_of, item, nil,
  require_choice, require_host_id, require_keys, require_str, resolve_list, resolve_pair,
  resolve_pairs, validate_fault, validate_faults,
}
use srv6_ai_fabric.Scenario.Texts.{words}

-- Two different hosts of the fabric, of a tenant of the fabric.
abbrev pub IsRunnable : Fabric → FlowPair → Type 0
IsRunnable f p =
    (known_tenant p.tenant f.tenants ≡ true)
    × (p.src < f.num_leaves)
    × (p.dst < f.num_leaves)
    × (p.src ≢ p.dst)

-- A fault whose target and spec are understood.
abbrev pub IsParsed : Fabric → FaultSpec → Type 0
IsParsed f fault =
    ((nics : List NicTarget) × (parse_target f (words fault.target) ≡ ok nics))
    × ((tokens : List String) × (normalize_spec (words fault.spec) ≡ ok tokens))

-- What the named sets of pairs need of a fabric.
abbrev pub HasReferenceHosts : Fabric → Type 0
HasReferenceHosts f =
    (16 ≤ f.num_leaves)
    × (known_tenant "green" f.tenants ≡ true)
    × (known_tenant "yellow" f.tenants ≡ true)

good_pairs : List (ℕ × ℕ) → Bool
good_pairs [] = true
good_pairs (p ∷ ps) = ltb (p.0) 16 && ltb (p.1) 16 && not (p.0 == p.1) && good_pairs ps

pairs_for-IsRunnable :
    (f : Fabric) (tenant : String) (ps : List (ℕ × ℕ))
    → 16 ≤ f.num_leaves
    → known_tenant tenant f.tenants ≡ true
    → good_pairs ps ≡ true
    → All (IsRunnable f) (pairs_for tenant ps)
unfolding good_pairs
pairs_for-IsRunnable f tenant [] wide known good = tt
pairs_for-IsRunnable f tenant (p ∷ ps) wide known good = (
  (known, ground arith, ground arith, λ e. ground arith),
  pairs_for-IsRunnable f tenant ps wide known (ground arith),
)

All-lookup :
    (P : List FlowPair → Type 0) (k : String) (d : Dict String (List FlowPair)) {v : List FlowPair}
    → All (λ e. P (e.1)) d
    → lookup k d ≡ some v
    → P v
unfolding lookup
All-lookup P k [] all h = cc
All-lookup P k ((j, w) ∷ d) {v} all h = elim (Bool-cases (String_eq.beq j k)) [
  | inl here ↦ subst P (ground arith) all.0
  | inr away ↦ All-lookup P k d all.1 (ground arith)
]

named-IsRunnable :
    (f : Fabric) (name : String) {ps : List FlowPair}
    → HasReferenceHosts f
    → lookup name named_pair_sets ≡ some ps
    → All (IsRunnable f) ps
unfolding named_pair_sets good_pairs
named-IsRunnable f name (wide, green, yellow) h =
    All-lookup (All (IsRunnable f)) name named_pair_sets
      (
        pairs_for-IsRunnable f "green" reference_pairs wide green refl,
        (
          pairs_for-IsRunnable f "yellow" reference_pairs wide yellow refl,
          (
            pairs_for-IsRunnable f "green" reference_pairs_4 wide green refl,
            (
              pairs_for-IsRunnable f "yellow" reference_pairs_4 wide yellow refl,
              (
                pairs_for-IsRunnable f "green" ((0, 15) ∷ []) wide green refl,
                (pairs_for-IsRunnable f "yellow" ((0, 15) ∷ []) wide yellow refl, tt),
              ),
            ),
          ),
        ),
      )
      h

host_id_of-lt : (n : ℕ) (v : Option ℤ) (k : ℕ) → host_id_of n v ≡ ok k → k < n
unfolding host_id_of
host_id_of-lt n none k h = cc
host_id_of-lt n (some (negsuc m)) k h = cc
host_id_of-lt n (some (pos m)) k h =
    let (_, fits, e) = >>=-eq-ok (guard (ltb m n) value_error) _ h in
    subst (λ x. x < n) (ok-injective _ _ e) (ltb→lt m n (guard-ok _ _ fits))

module _ {F : Type 0} where
  choice_of-known :
      (choices : List String) (v : Yaml F) (s : String)
      → choice_of choices v ≡ ok s
      → known_tenant s choices ≡ true
  unfolding choice_of
  choice_of-known choices (str t) s h =
      let (_, fits, e) = >>=-eq-ok (guard (known_tenant t choices) value_error) _ h in
      subst (λ x. known_tenant x choices ≡ true) (ok-injective _ _ e) (guard-ok _ _ fits)
  choice_of-known choices null s h = cc
  choice_of-known choices (bool b) s h = cc
  choice_of-known choices (int n) s h = cc
  choice_of-known choices (float x) s h = cc
  choice_of-known choices (seq vs) s h = cc
  choice_of-known choices (mapping d) s h = cc

  resolve_pair-IsRunnable :
      (f : Fabric) (v : Yaml F) (p : FlowPair) → resolve_pair f v ≡ ok p → IsRunnable f p
  unfolding resolve_pair
  resolve_pair-IsRunnable f (mapping d) p h =
      let (_, _, r0) = >>=-eq-ok (require_keys d ("tenant" ∷ "src" ∷ "dst" ∷ []) []) _ h in
      let (tenant, et, r1) = >>=-eq-ok (require_choice f.tenants "tenant" d) _ r0 in
      let (src, es, r2) = >>=-eq-ok (require_host_id f.num_leaves "src" d) _ r1 in
      let (dst, ed, r3) = >>=-eq-ok (require_host_id f.num_leaves "dst" d) _ r2 in
      let (_, differ, e) = >>=-eq-ok (guard (not (src == dst)) value_error) _ r3 in
      let (tv, _, tenant_read) = >>=-eq-ok (item "tenant" d) _ et in
      let (sv, _, src_read) = >>=-eq-ok (item "src" d) _ es in
      let (dv, _, dst_read) = >>=-eq-ok (item "dst" d) _ ed in
      let not_same : src ≢ dst = (λ same. ground (arith, guard-ok _ _ differ)) in
      subst (IsRunnable f) (ok-injective _ _ e) (
        choice_of-known f.tenants tv tenant tenant_read,
        host_id_of-lt f.num_leaves (int_of sv) src src_read,
        host_id_of-lt f.num_leaves (int_of dv) dst dst_read,
        not_same,
      )
  resolve_pair-IsRunnable f null p h = cc
  resolve_pair-IsRunnable f (bool b) p h = cc
  resolve_pair-IsRunnable f (int n) p h = cc
  resolve_pair-IsRunnable f (float x) p h = cc
  resolve_pair-IsRunnable f (seq vs) p h = cc
  resolve_pair-IsRunnable f (str s) p h = cc

  resolve_list-IsRunnable :
      (f : Fabric) (vs : Items F) (ps : List FlowPair)
      → resolve_list f vs ≡ ok ps
      → All (IsRunnable f) ps
  unfolding resolve_list
  resolve_list-IsRunnable f nil ps h = subst (All (IsRunnable f)) (ok-injective _ _ h) tt
  resolve_list-IsRunnable f (cons v vs) ps h =
      let (p, ep, r) = >>=-eq-ok (resolve_pair f v) _ h in
      let (rest, er, e) = >>=-eq-ok (resolve_list f vs) _ r in
      subst (All (IsRunnable f)) (ok-injective _ _ e)
        (resolve_pair-IsRunnable f v p ep, resolve_list-IsRunnable f vs rest er)

  pub resolve_pairs-IsRunnable :
      (f : Fabric) (v : Yaml F) (ps : List FlowPair)
      → HasReferenceHosts f
      → resolve_pairs f v ≡ ok ps
      → All (IsRunnable f) ps
  unfolding resolve_pairs
  resolve_pairs-IsRunnable f (str s) ps ref h =
      named-IsRunnable f s ref (require-ok (lookup s named_pair_sets) value_error h)
  resolve_pairs-IsRunnable f (seq nil) ps ref h = cc
  resolve_pairs-IsRunnable f (seq (cons v vs)) ps ref h = resolve_list-IsRunnable f (cons v vs) ps h
  resolve_pairs-IsRunnable f null ps ref h = cc
  resolve_pairs-IsRunnable f (bool b) ps ref h = cc
  resolve_pairs-IsRunnable f (int n) ps ref h = cc
  resolve_pairs-IsRunnable f (float x) ps ref h = cc
  resolve_pairs-IsRunnable f (mapping d) ps ref h = cc

  validate_fault-IsParsed :
      (f : Fabric) (v : Yaml F) (fault : FaultSpec)
      → validate_fault f v ≡ ok fault
      → IsParsed f fault
  unfolding validate_fault
  validate_fault-IsParsed f (mapping d) fault h =
      let (_, _, r0) = >>=-eq-ok (require_keys d ("kind" ∷ "target" ∷ "spec" ∷ []) []) _ h in
      let (kind, _, r1) = >>=-eq-ok (require_str "kind" d) _ r0 in
      let (_, _, r2) = >>=-eq-ok (guard (String_eq.beq kind "netem") value_error) _ r1 in
      let (target, _, r3) = >>=-eq-ok (require_str "target" d) _ r2 in
      let (spec, _, r4) = >>=-eq-ok (require_str "spec" d) _ r3 in
      let (nics, en, r5) = >>=-eq-ok (parse_target f (words target)) _ r4 in
      let (tokens, et, e) = >>=-eq-ok (normalize_spec (words spec)) _ r5 in
      subst (IsParsed f) (ok-injective _ _ e) ((nics, en), (tokens, et))
  validate_fault-IsParsed f null fault h = cc
  validate_fault-IsParsed f (bool b) fault h = cc
  validate_fault-IsParsed f (int n) fault h = cc
  validate_fault-IsParsed f (float x) fault h = cc
  validate_fault-IsParsed f (str s) fault h = cc
  validate_fault-IsParsed f (seq vs) fault h = cc

  pub validate_faults-IsParsed :
      (f : Fabric) (vs : Items F) (faults : List FaultSpec)
      → validate_faults f vs ≡ ok faults
      → All (IsParsed f) faults
  unfolding validate_faults
  validate_faults-IsParsed f nil faults h = subst (All (IsParsed f)) (ok-injective _ _ h) tt
  validate_faults-IsParsed f (cons v vs) faults h =
      let (fault, ef, r) = >>=-eq-ok (validate_fault f v) _ h in
      let (rest, er, e) = >>=-eq-ok (validate_faults f vs) _ r in
      subst (All (IsParsed f)) (ok-injective _ _ e)
        (validate_fault-IsParsed f v fault ef, validate_faults-IsParsed f vs rest er)
