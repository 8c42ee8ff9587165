-- ===== src/Netem.antt =====
-- srv6_fabric/netem.py: which network cards a fault covers, its tokens, and the faults that are applied
-- and reverted. A text that the source splits at white space is the list of its words; the processes
-- that it starts are an argument.
pub mod Previews
pub mod Undo
use Prim.Native.Char.{code}
use srv6_ai_fabric.Prelude.{
  ◌>>◌, ℕ_eq, String_eq, ℕ, List, Bool, Option, Result, String, [], false, guard, if◌then◌else◌,
  leb, ltb, map, none, ok, raise, require, runtime_error, some, suc, true, value_error, zero, ◌%◌,
  ◌&&◌, ◌*◌, ◌++◌, ◌+◌, ◌-◌, ◌/◌, ◌==◌, ◌>>=◌, ◌||◌, ◌∷◌,
}
use srv6_ai_fabric.Topo.Addresses.{Fabric, cat, hex_char}

-- The decimal digits of a number before `rest`; `fuel` bounds their number.
unfoldable pub decimal_on : ℕ → ℕ → String → String
decimal_on zero n rest = String.◌∷◌ (hex_char (n % 10)) rest
decimal_on (suc fuel) n rest =
    let shown = String.◌∷◌ (hex_char (n % 10)) rest in
    let more = decimal_on fuel (n / 10) shown in if ltb n 10 then shown else more

abbrev pub decimal : ℕ → String
decimal n = decimal_on n n ""

-- `host_name`, with two digits at least
unfoldable pub host_name : String → ℕ → String
host_name tenant host_id =
    cat tenant (cat "-host" (if ltb host_id 10 then cat "0" (decimal host_id) else decimal host_id))

-- `PLANE_NIC`
abbrev pub plane_nic : ℕ → String
plane_nic plane = cat "eth" (decimal (plane + 1))

pub record NicTarget : Type 0 where
  pub container : String
  pub ifname : String

-- The hosts of a tenant from `i` on, `count` of them.
unfoldable pub hosts_from : String → ℕ → ℕ → List String
hosts_from tenant i zero = []
hosts_from tenant i (suc count) = host_name tenant i ∷ hosts_from tenant (suc i) count

unfoldable pub all_hosts : ℕ → List String → List String
all_hosts num_leaves [] = []
all_hosts num_leaves (tenant ∷ tenants) =
    hosts_from tenant 0 num_leaves ++ all_hosts num_leaves tenants

-- `int(digits)` of one decimal digit or more, which the pattern has matched.
unfoldable pub int_10 : ℕ → String → Option ℕ
int_10 acc String.[] = some acc
int_10 acc (String.◌∷◌ c s) =
    let rest = int_10 (acc * 10 + (code c - b'0')) s in
    if leb b'0' (code c) && leb (code c) b'9' then rest else none

unfoldable pub digits : String → Option ℕ
digits String.[] = none
digits (String.◌∷◌ c s) = int_10 0 (String.◌∷◌ c s)

-- What stands behind a prefix.
unfoldable pub behind : String → String → Option String
behind String.[] s = some s
behind (String.◌∷◌ p ps) String.[] = none
behind (String.◌∷◌ p ps) (String.◌∷◌ c s) =
    let rest = behind ps s in if code p == code c then rest else none

-- `\d{2}`
unfoldable pub two_digits : String → Option ℕ
two_digits (String.◌∷◌ a (String.◌∷◌ b String.[])) = digits (String.◌∷◌ a (String.◌∷◌ b String.[]))
two_digits _ = none

-- `re.fullmatch(r"(green|yellow)-host(\d{2})", host)`, its number
unfoldable pub host_index : String → Option ℕ
host_index host = elim (behind "green-host" host) [
  | some rest ↦ two_digits rest
  | none ↦ elim (behind "yellow-host" host) [ none ↦ none | some rest ↦ two_digits rest ]
]

unfoldable pub validate_host : Fabric → String → Result (Unit {0})
validate_host f host = do
  idx ← require (host_index host) value_error
  guard (ltb idx f.num_leaves) value_error

-- The cards of a host from plane `p` on, `count` of them.
unfoldable pub host_nics : String → ℕ → ℕ → List NicTarget
host_nics host p zero = []
host_nics host p (suc count) =
    record { container = host; ifname = plane_nic p } ∷ host_nics host (suc p) count

unfoldable pub plane_nics : List String → ℕ → List NicTarget
plane_nics hosts plane = map (λ host. record { container = host; ifname = plane_nic plane }) hosts

-- "plane N"
unfoldable pub plane_target : Fabric → String → Result (List NicTarget)
plane_target f n = do
  plane ← require (digits n) value_error
  guard (ltb plane f.num_planes) value_error
  ok (plane_nics (all_hosts f.num_leaves f.tenants) plane)

-- "host NAME plane N"
unfoldable pub card_target : Fabric → String → String → Result (List NicTarget)
card_target f host n = do
  plane ← require (digits n) value_error
  validate_host f host
  guard (ltb plane f.num_planes) value_error
  ok (record { container = host; ifname = plane_nic plane } ∷ [])

-- "host NAME"
unfoldable pub host_target : Fabric → String → Result (List NicTarget)
host_target f host = do validate_host f host; ok (host_nics host 0 f.num_planes)

-- `parse_target` on the words of the text
unfoldable pub parse_target : Fabric → List String → Result (List NicTarget)
parse_target f (a ∷ b ∷ []) =
    if String_eq.beq a "plane"
    then plane_target f b
    else if String_eq.beq a "host"
    then host_target f b
    else raise value_error
parse_target f (a ∷ host ∷ c ∷ n ∷ []) =
    if String_eq.beq a "host" && String_eq.beq c "plane"
    then card_target f host n
    else raise value_error
parse_target f _ = raise value_error

-- `[A-Za-z0-9.%]`
abbrev token_char : ℕ → Bool
token_char c =
    (leb b'A' c && leb c b'Z')
    || (leb b'a' c && leb c b'z')
    || (leb b'0' c && leb c b'9')
    || (c == b'.')
    || (c == b'%')

unfoldable pub good_token : String → Bool
good_token String.[] = true
good_token (String.◌∷◌ c s) = token_char (code c) && good_token s

unfoldable pub good_tokens : List String → Bool
good_tokens [] = true
good_tokens (t ∷ ts) = good_token t && good_tokens ts

unfoldable pub one_of : String → List String → Bool
one_of s [] = false
one_of s (k ∷ ks) = String_eq.beq k s || one_of s ks

abbrev pub netem_allowed_keywords : List String
netem_allowed_keywords =
    "loss" ∷ "delay" ∷ "duplicate" ∷ "corrupt" ∷ "reorder" ∷ "rate" ∷ "gap" ∷ "limit"
    ∷ "distribution" ∷ "normal" ∷ "pareto" ∷ "paretonormal" ∷ "blackhole" ∷ []

abbrev is_blackhole : List String → Bool
is_blackhole (t ∷ []) = String_eq.beq t "blackhole"
is_blackhole _ = false

-- `normalize_spec` on the words of the text; a word has a character at least.
unfoldable pub normalize_spec : List String → Result (List String)
normalize_spec [] = raise value_error
normalize_spec (first ∷ tokens) =
    if is_blackhole (first ∷ tokens)
    then ok ("loss" ∷ "100%" ∷ [])
    else guard (good_tokens (first ∷ tokens)) value_error
      >> guard (one_of first netem_allowed_keywords) value_error
      >> ok (first ∷ tokens)

-- A fault, its target and spec in words.
pub record Fault : Type 0 where
  pub target : List String
  pub spec : List String

-- `Fault.resolve`
unfoldable pub resolve : Fabric → Fault → Result (List NicTarget × List String)
resolve f fault = do
  nics ← parse_target f fault.target
  tokens ← normalize_spec fault.spec
  ok (nics, tokens)

-- The three commands that the runner is given.
pub data Command : Type 0 where
  docker_inspect : String → Command
  tc_add : ℕ → String → List String → Command
  tc_del : ℕ → String → Command

-- A finished process: is its return code zero, and its output, stripped.
pub record Completed : Type 0 where
  pub zero_code : Bool
  pub stdout : String

-- The world that the processes change; `applied` has the last entry first, and `commands` is what the
-- runner was given, the last first, with whether the return code was zero.
pub record NetemState {ℓ} (World : Type ℓ) : Type ℓ where
  pub world : World
  pub applied : List (ℕ × String)
  pub commands : List (Command × Bool)

-- A positive number in digits.
unfoldable pub pid_of : Completed → Option ℕ
pid_of res =
    if res.zero_code
    then elim (digits res.stdout) [ none ↦ none | some n ↦ if ltb 0 n then some n else none ]
    else none

module _ {ℓ} {World : Type ℓ} (runner : Command → World → Completed × World) where
  -- `self.runner(argv)`
  unfoldable pub call : Command → NetemState World → Completed × NetemState World
  call c s =
      let out = runner c s.world in
      (out.0, record s { world = out.1; commands = (c, (out.0).zero_code) ∷ s.commands })

  -- `resolve_container_pid`: the bare name, then the name with the topology's prefix.
  unfoldable pub resolve_container_pid :
      String → String → NetemState World → Result ℕ × NetemState World
  resolve_container_pid topo container s =
      let first = call (docker_inspect container) s in
      elim (pid_of (first.0)) [
        | some pid ↦ (ok pid, first.1)
        | none ↦
            let second =
              call (docker_inspect (cat "clab-" (cat topo (cat "-" container)))) (first.1) in
            (require (pid_of (second.0)) runtime_error, second.1)
      ]

  -- The loop of `revert` over the entries that are left.
  unfoldable pub revert_entries :
      Bool → List (ℕ × String) → NetemState World → Result (Unit {0}) × NetemState World
  revert_entries quiet [] s = (ok tt, s)
  revert_entries quiet ((pid, ifname) ∷ rest) s =
      let out = call (tc_del pid ifname) (record s { applied = rest }) in
      let more = revert_entries quiet rest (out.1) in
      if (out.0).zero_code || quiet then more else (raise runtime_error, out.1)

  unfoldable pub revert : Bool → NetemState World → Result (Unit {0}) × NetemState World
  revert quiet s = revert_entries quiet s.applied s

  -- The end of a turn of `apply` for a card, with its process.
  unfoldable pub apply_pid :
      List String → String → ℕ → NetemState World → Result (Unit {0}) × NetemState World
  apply_pid tokens ifname pid s =
      let out = call (tc_add pid ifname tokens) s in
      if (out.0).zero_code
      then (ok tt, record (out.1) { applied = (pid, ifname) ∷ (out.1).applied })
      else (raise runtime_error, (revert true (out.1)).1)

  unfoldable pub apply_nic :
      String → List String → NicTarget → NetemState World → Result (Unit {0}) × NetemState World
  apply_nic topo tokens nic s =
      let found = resolve_container_pid topo nic.container s in
      elim (found.0) [
        | raise e ↦ (raise e, found.1)
        | ok pid ↦ apply_pid tokens nic.ifname pid (found.1)
      ]

  unfoldable pub apply_nics :
      String
      → List String
      → List NicTarget
      → NetemState World
      → Result (Unit {0}) × NetemState World
  apply_nics topo tokens [] s = (ok tt, s)
  apply_nics topo tokens (nic ∷ nics) s =
      let one = apply_nic topo tokens nic s in
      let rest = apply_nics topo tokens nics (one.1) in
      elim (one.0) [ raise e ↦ (raise e, one.1) | ok _ ↦ rest ]

  -- `apply` for a live run; each fault is resolved when its turn comes.
  unfoldable pub apply :
      Fabric → String → List Fault → NetemState World → Result (Unit {0}) × NetemState World
  apply f topo [] s = (ok tt, s)
  apply f topo (fault ∷ faults) s = elim (resolve f fault) [
    | raise e ↦ (raise e, s)
    | ok (nics, tokens) ↦
        let one = apply_nics topo tokens nics s in
        let rest = apply f topo faults (one.1) in
        elim (one.0) [ raise e ↦ (raise e, one.1) | ok _ ↦ rest ]
  ]

-- `apply(dry_run=True)`: the commands, and no process.
unfoldable pub preview : Fabric → List Fault → Result (List Command)
preview f [] = ok []
preview f (fault ∷ faults) = do
  (nics, tokens) ← resolve f fault
  rest ← preview f faults
  ok (map (λ nic. tc_add 0 nic.ifname tokens) nics ++ rest)
