-- ===== src/Tests/Scenarios.antt =====
-- The validator and the planner at concrete documents.
use srv6_ai_fabric.Prelude.{
  String_eq, ℕ_eq, ℕ, List, Option, String, [], arith, none, ok, raise, refl, some, true,
  type_error, ◌∷◌, ◌≡◌,
}
use srv6_ai_fabric.Prelude.Int.{pos}
use srv6_ai_fabric.Prelude.Dict.{lookup}
use srv6_ai_fabric.Tests.Fractions.{Fraction, fractions, frac}
use srv6_ai_fabric.Topo.Addresses.{Fabric, hex_char}
use srv6_ai_fabric.Policy.{known_tenant, policy_from_spec}
use srv6_ai_fabric.Netem.{
  digits, Command, all_hosts, decimal_on, good_token, good_tokens, host_name, hosts_from, int_10,
  normalize_spec, one_of, parse_target, plane_nics, plane_target, preview,
}
use srv6_ai_fabric.Scenario.{
  Scenario, falsy, faults_of, float_of, floats_of, flows_of, list_of_faults, mrc_defaults, opt_str,
  optional_mrc, out_of, parse_duration, policy_of, positive_float, positive_int, seconds_of,
  spec_of, validate, validate_flow, validate_flows, validate_mrc, validate_report, weights_of,
}
use srv6_ai_fabric.Scenario.Documents.{
  get, Yaml, bool, choice_of, cons, end, entry, has_all, host_id_of, int, int_of, mapping,
  named_pair_sets, nil, null, only, parse_rate, positive_rate, require_keys, resolve_list,
  resolve_pair, resolve_pairs, seq, str, text_of, validate_fault, validate_faults,
}
use srv6_ai_fabric.Scenario.Texts.{
  rate_text, blank, digits_of, duration_text, fraction_of, number, number_from, pps, skip_space,
  unit_of, words_from,
}
use srv6_ai_fabric.Run.{faults_for_netem}
use srv6_ai_fabric.Run.Plans.{IsExpanded, validate-IsPlanned}
use srv6_ai_fabric.Scenario.Whole.{IsSound, validate-IsSound}

abbrev fabric : Fabric
fabric = record {
  num_planes = 4;
  num_spines = 8;
  num_leaves = 16;
  tenants = "green" ∷ "yellow" ∷ [];
}

-- A stand-in for `float` on whole numbers.
unfoldable read_float : String → Option Fraction
unfolding digits int_10
read_float s = elim (digits s) [ none ↦ none | some n ↦ some (frac n 0) ]

program : Unit {0}
unfolding read_float digits int_10 get has_all only require_keys text_of int_of host_id_of choice_of
    positive_rate parse_rate resolve_pair resolve_list resolve_pairs validate_fault validate_faults
    named_pair_sets lookup known_tenant words_from rate_text number number_from skip_space pps blank
    digits_of fraction_of unit_of duration_text spec_of weights_of floats_of float_of
    policy_from_spec positive_float seconds_of parse_duration validate_flow validate_flows
    positive_int validate_mrc optional_mrc out_of validate_report opt_str flows_of falsy
    list_of_faults faults_of validate one_of parse_target plane_target hosts_from all_hosts
    host_name hex_char decimal_on plane_nics good_tokens good_token normalize_spec
program = tt

abbrev pair : String → ℕ → ℕ → Yaml Fraction
pair tenant src dst =
    mapping
      (entry "tenant" (str tenant) (entry "src" (int (pos src)) (entry "dst" (int (pos dst)) end)))

abbrev flow : Yaml Fraction
flow = mapping (
    entry "pairs" (seq (cons (pair "green" 0 15) (cons (pair "yellow" 3 4) nil))) (
      entry "policy" (str "hash5tuple")
        (entry "rate" (str "1000pps") (entry "duration" (str "500 ms") end))))

abbrev fault : Yaml Fraction
fault = mapping (
    entry "kind" (str "netem")
      (entry "target" (str " plane  2") (entry "spec" (str "loss 5%") end)))

abbrev doc : Yaml Fraction
doc = mapping (
    entry "name" (str "two pairs") (
      entry "flows" (seq (cons flow nil))
        (entry "faults" (seq (cons fault nil)) (entry "mrc" null end))))

abbrev accepted : Scenario Fraction
accepted = record {
  name = "two pairs";
  description = "";
  flows =
      record {
        pairs =
            record { tenant = "green"; src = 0; dst = 15 }
            ∷ record { tenant = "yellow"; src = 3; dst = 4 }
            ∷ [];
        policy_spec = str "hash5tuple";
        rate_pps = 1000;
        duration_s = frac 500 999;
      }
      ∷ [];
  faults = record { target = " plane  2"; spec = "loss 5%" } ∷ [];
  report_out = none;
  mrc = some mrc_defaults;
}

doc-accepted : validate fractions read_float fabric doc ≡ ok accepted
unfolding program
doc-accepted = refl

-- `0pps` passes, though the message asks for a positive number; so does `true` as the rate 1.
zero_rate : parse_rate {F = Fraction} (str "0pps") ≡ ok 0
unfolding program
zero_rate = refl

true_rate : parse_rate {F = Fraction} (bool true) ≡ ok 1
unfolding program
true_rate = refl

no_time : parse_duration fractions read_float (str "0s") ≡ ok (frac 0 0)
unfolding program
no_time = refl

-- Weights that are a number raise TypeError, which the validator does not catch.
bad_weights :
    policy_of fractions read_float 4 (mapping (entry "weighted" (int (pos 1)) end))
    ≡ raise type_error
unfolding program
bad_weights = refl

validate-IsSound_example : IsSound fractions read_float fabric accepted
unfolding known_tenant
validate-IsSound_example =
    validate-IsSound fractions read_float fabric doc accepted (omega arith, refl, refl) doc-accepted

-- A stand-in for `str` on weights.
abbrev text : Yaml Fraction → String
text v = "1"

validate-IsPlanned_example :
    ((cs : List Command) × (preview fabric (faults_for_netem accepted.faults) ≡ ok cs))
    × IsExpanded fractions read_float text fabric accepted.flows
unfolding known_tenant
validate-IsPlanned_example =
    validate-IsPlanned fractions read_float text fabric doc accepted (omega arith, refl, refl)
      doc-accepted
