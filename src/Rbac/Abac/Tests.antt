-- ===== src/Rbac/Abac/Tests.antt =====
-- Runs of internal/rbac/abac.go. Floats are taken for natural numbers here.
use Prim.Native.Char.{code}
use platformfoundry_ce.Base.{
  ℕ, ◌<◌, String, ◌≡◌, ◌↔◌, refl, Bool, true, false, none, some, List, [], ◌∷◌, ◌++◌, leb, length,
  ◌&&◌, ◌==◌,
}
use platformfoundry_ce.Base.Int64.{i64}
use platformfoundry_ce.Base.Maps.{Map, lookup, insert, delete, has, keys}
use platformfoundry_ce.Rbac.Abac.Strings.{
  Bytes, starts_with_string, ends_with_string, contains_string, find_substring, find_from,
}
use platformfoundry_ce.Rbac.Abac.Substrings.{IsPart, string_tests_iff}
use platformfoundry_ce.Rbac.Abac.Sorting.{bubble, bubble_rounds, sort_by_priority}
use platformfoundry_ce.Rbac.Abac.Match.{
  Value, text, float64_value, Values, Clock, AttributeMatcher, TimeRange, match_action, same_value,
  text_of, to_float64, is_among, is_empty, match_text, match_number, match_attribute_value,
  match_attributes, in_days, match_time_range, match_environment,
}
use platformfoundry_ce.Rbac.Abac.{
  AbacRule, AbacPolicy, AccessRequest, EvaluationContext, AttributeStore, AbacEngine,
  register_policy, delete_policy, get_policy, get_subject_attributes, get_resource_attributes,
  merge, get_environment_attributes, enabled_policies, sort_policies, evaluation_context,
  condition_holds, rule_matches, first_rule, evaluate_policy, first_decision, evaluate,
}
use platformfoundry_ce.Rbac.Abac.Decisions.{Outcome, evaluate-Outcome}
use platformfoundry_ce.Rbac.Abac.Gaps.{
  as_listed, swapped, swapped-VisitsAll, condition_is_not_read, without_bounds, without_texts,
  match_attribute_value_types, evaluate_depends_on_order,
}

program : Unit {0}
unfolding lookup insert delete has keys starts_with_string ends_with_string contains_string
    find_substring find_from bubble bubble_rounds sort_by_priority match_action same_value text_of
    to_float64 is_among is_empty match_text match_number match_attribute_value match_attributes
    in_days match_time_range match_environment register_policy delete_policy get_policy
    get_subject_attributes get_resource_attributes merge get_environment_attributes enabled_policies
    sort_policies evaluation_context condition_holds rule_matches first_rule evaluate_policy
    first_decision evaluate
program = tt

abbrev codes : String → List ℕ
codes String.[] = []
codes (String.◌∷◌ c s) = code c ∷ codes s

abbrev same_ℕ : ℕ → ℕ → Bool
same_ℕ a b = leb a b && leb b a

abbrev values : Values ℕ ℕ ℕ
values = record {
  of_int = λ n. n;
  of_float32 = λ n. n;
  le = leb;
  same_float32 = same_ℕ;
  same_float64 = same_ℕ;
  same_other = same_ℕ;
  bytes = codes;
  matches_regex = λ pattern s. pattern == s;
}

abbrev noon : Clock
noon = record { hour = λ zone. 12; weekday = λ zone. "Monday"; formatted = "12:00" }

abbrev anything : AttributeMatcher ℕ ℕ ℕ
anything = record {
  equals = none;
  not_equals = none;
  one_of = [];
  none_of = [];
  contains = "";
  starts_with = "";
  ends_with = "";
  regex = "";
  greater_than = none;
  less_than = none;
}

abbrev by_day : TimeRange
by_day = record { start_hour = i64 9; end_hour = i64 17; days = "Monday" ∷ []; timezone = "" }

abbrev by_night : TimeRange
by_night = record { start_hour = i64 22; end_hour = i64 6; days = []; timezone = "" }

-- A rule for production, with an effect and a condition.
abbrev rule : String → String → String → AbacRule ℕ ℕ ℕ
rule name effect condition = record {
  name = name;
  subject = [];
  resource_type = "";
  resource = ("environment", record anything { equals = some (text "production") }) ∷ [];
  actions = "deploy" ∷ [];
  environment = record { time_range = some by_day; attributes = [] };
  effect = effect;
  condition = condition;
}

abbrev policy : String → ℕ → AbacRule ℕ ℕ ℕ → AbacPolicy ℕ ℕ ℕ
policy id priority r = record {
  id = id;
  name = id;
  rules = r ∷ [];
  priority = i64 priority;
  enabled = true;
}

abbrev deploy : AccessRequest ℕ ℕ ℕ
deploy = record {
  subject = "ann";
  resource = "cluster";
  resource_type = "cluster";
  action = "deploy";
  environment = [];
  context = [];
}

abbrev cluster : Map (Value ℕ ℕ ℕ)
cluster = ("environment", text "production") ∷ []

abbrev attributes : AttributeStore ℕ ℕ ℕ
attributes = record { subject_attributes = λ id. some []; resource_attributes = λ id. some cluster }

abbrev engine : Map (AbacPolicy ℕ ℕ ℕ) → AbacEngine ℕ ℕ ℕ
engine policies = record { policies = policies; store = some attributes; policy_engine = none }

abbrev allows : AbacPolicy ℕ ℕ ℕ
allows = policy "a" 50 (rule "allow-all" "allow" "")

abbrev denies : AbacPolicy ℕ ℕ ℕ
denies = policy "d" 50 (rule "deny-all" "deny" "")

abbrev equal : AbacEngine ℕ ℕ ℕ
equal = engine (("a", allows) ∷ ("d", denies) ∷ [])

abbrev layered : AbacEngine ℕ ℕ ℕ
layered = engine (("a", allows) ∷ ("h", policy "h" 90 (rule "deny-high" "deny" "")) ∷ [])

high_denies :
    evaluate values noon layered as_listed deploy
    ≡ record { allowed = false; policy_id = "h"; rule_id = "deny-high" }
unfolding program
high_denies = refl

no_match_by_night : match_time_range noon by_night ≡ false
unfolding program
no_match_by_night = refl

subject_known : get_subject_attributes layered "ann" ≡ some []
unfolding program
subject_known = refl

resource_known : get_resource_attributes layered "cluster" ≡ some cluster
unfolding program
resource_known = refl

evaluate-Outcome_example :
    Outcome values noon layered
      (evaluation_context noon deploy [] cluster)
      deploy
      (evaluate values noon layered swapped deploy)
evaluate-Outcome_example =
    evaluate-Outcome values noon layered swapped swapped-VisitsAll deploy [] cluster subject_known
      resource_known

equal_subject : get_subject_attributes equal "ann" ≡ some []
unfolding program
equal_subject = refl

equal_resource : get_resource_attributes equal "cluster" ≡ some cluster
unfolding program
equal_resource = refl

abbrev seen : EvaluationContext ℕ ℕ ℕ
seen = evaluation_context noon deploy [] cluster

first_allows :
    first_rule values noon equal allows.rules seen deploy ≡ some (rule "allow-all" "allow" "")
unfolding program
first_allows = refl

first_denies :
    first_rule values noon equal denies.rules seen deploy ≡ some (rule "deny-all" "deny" "")
unfolding program
first_denies = refl

evaluate_depends_on_order_example :
    ((evaluate values noon equal as_listed deploy).allowed ≡ true)
    × ((evaluate values noon equal swapped deploy).allowed ≡ false)
evaluate_depends_on_order_example =
    evaluate_depends_on_order values noon equal deploy [] cluster equal_subject equal_resource "a"
      "d" refl allows denies refl (rule "allow-all" "allow" "") (rule "deny-all" "deny" "") refl
      refl refl first_allows first_denies refl refl

condition_is_not_read_example :
    rule_matches values noon equal (rule "r" "allow" "1 == 2") seen deploy
    ≡ rule_matches values noon equal (rule "r" "allow" "1 == 1") seen deploy
condition_is_not_read_example =
    condition_is_not_read values noon equal (rule "r" "allow" "1 == 1") "1 == 2" seen deploy refl
      refl

abbrev above : AttributeMatcher ℕ ℕ ℕ
above = record anything { contains = "prod"; greater_than = some 3 }

number_is_no_text : text_of {F = ℕ} {G = ℕ} {O = ℕ} (float64_value 2) ≡ none
unfolding program
number_is_no_text = refl

-- The text `0` passes a test for numbers above 3.
text_passes :
    match_attribute_value values (record anything { greater_than = some 3 }) (text "0") ≡ true
unfolding program
text_passes = refl

match_attribute_value_types_example :
    (match_attribute_value values above (text "0")
      ≡ match_attribute_value values (without_bounds values above) (text "0"))
    × (match_attribute_value values above (float64_value 2)
        ≡ match_attribute_value values (without_texts values above) (float64_value 2))
match_attribute_value_types_example =
    match_attribute_value_types values above "0" (float64_value 2) number_is_no_text

string_tests_iff_example :
    ((starts_with_string (codes "production") (codes "duct") ≡ true)
      ↔ ((rest : Bytes) × (codes "production" ≡ codes "duct" ++ rest)))
    × ((ends_with_string (codes "production") (codes "duct") ≡ true)
        ↔ ((front : Bytes) × (codes "production" ≡ front ++ codes "duct")))
    × ((contains_string (codes "production") (codes "duct") ≡ true)
        ↔ ((0 < length (codes "duct")) × IsPart (codes "production") (codes "duct")))
string_tests_iff_example = string_tests_iff (codes "production") (codes "duct")

duct_found : contains_string (codes "production") (codes "duct") ≡ true
unfolding program
duct_found = refl
