-- ===== src/Rbac/Abac.antt =====
-- internal/rbac/abac.go: attribute-based policies. `Match` has the matchers, and this file the
-- policies and their evaluation. The attribute store and the policy engine are code behind
-- interfaces: each may be nil, and what it answers is an argument. Times of registration and texts
-- of reasons are left out.
pub mod Match
pub mod Strings
pub mod Substrings
pub mod Sorting
pub mod FirstMatch
pub mod Decisions
pub mod Gaps
mod Tests
use platformfoundry_ce.Base.{
  ℕ, zero, suc, ◌-◌, String, Bool, true, false, not, ◌&&◌, ◌||◌, Option, none, some, List, [], ◌∷◌,
  if◌then◌else◌, ltb, length, ◌==◌,
}
use platformfoundry_ce.Base.Int64.{Int64, i64}
use platformfoundry_ce.Base.Maps.{Map, lookup, insert, delete, has, keys, RangeOrder}
use platformfoundry_ce.Rbac.Abac.Sorting.{sort_by_priority}
use platformfoundry_ce.Rbac.Abac.Match.{
  Value, text, int_value, Values, Clock, AttributeMatcher, EnvironmentMatcher, match_action,
  match_attributes, match_environment,
}

pub record AbacRule (F G O : Type 0) : Type 0 where
  pub name : String
  pub subject : Map (AttributeMatcher F G O)
  pub resource_type : String
  pub resource : Map (AttributeMatcher F G O)
  pub actions : List String
  pub environment : EnvironmentMatcher F G O
  pub effect : String
  pub condition : String

pub record AbacPolicy (F G O : Type 0) : Type 0 where
  pub id : String
  pub name : String
  pub rules : List (AbacRule F G O)
  pub priority : Int64
  pub enabled : Bool

pub record AccessRequest (F G O : Type 0) : Type 0 where
  pub subject : String
  pub resource : String
  pub resource_type : String
  pub action : String
  pub environment : Map (Value F G O)
  pub context : Map (Value F G O)

-- The input of the policy engine.
pub record EvaluationContext (F G O : Type 0) : Type 0 where
  pub subject : Map (Value F G O)
  pub resource : Map (Value F G O)
  pub action : String
  pub environment : Map (Value F G O)
  pub request_context : Map (Value F G O)

-- The attributes of a subject and of a resource, none for an error.
pub record AttributeStore (F G O : Type 0) : Type 0 where
  pub subject_attributes : String → Option (Map (Value F G O))
  pub resource_attributes : String → Option (Map (Value F G O))

pub record AbacEngine (F G O : Type 0) : Type 0 where
  pub policies : Map (AbacPolicy F G O)
  pub store : Option (AttributeStore F G O)
  -- Whether the policy of this name allows the input, none for an error.
  pub policy_engine : Option (String → EvaluationContext F G O → Option Bool)

-- The decision, with the policy and the rule that it rests on, empty without one.
pub record AccessDecision : Type 0 where
  pub allowed : Bool
  pub policy_id : String
  pub rule_id : String

abbrev pub denied : AccessDecision
denied = record { allowed = false; policy_id = ""; rule_id = "" }

module _ {F G O : Type 0} where
  -- `made_id` is what a policy without ID gets, from its name and the time.
  unfoldable pub register_policy : String → AbacPolicy F G O → AbacEngine F G O → AbacEngine F G O
  register_policy made_id policy e =
      let id : String = if policy.id == "" then made_id else policy.id in
      record e { policies = insert id (record policy { id = id }) e.policies }

  unfoldable pub get_policy : AbacEngine F G O → String → Option (AbacPolicy F G O)
  get_policy e id = lookup id e.policies

  -- Whether there was one, and what it leaves.
  unfoldable pub delete_policy : String → AbacEngine F G O → Bool × AbacEngine F G O
  delete_policy id e =
      if has id e.policies then (true, record e { policies = delete id e.policies }) else (false, e)

  unfoldable pub get_subject_attributes : AbacEngine F G O → String → Option (Map (Value F G O))
  get_subject_attributes e id = elim e.store [
    | none ↦ some []
    | some store ↦ store.subject_attributes id
  ]

  unfoldable pub get_resource_attributes : AbacEngine F G O → String → Option (Map (Value F G O))
  get_resource_attributes e id = elim e.store [
    | none ↦ some []
    | some store ↦ store.resource_attributes id
  ]

  -- `for k, v := range requestEnv`: each key stands once, so the order does not matter.
  unfoldable pub merge : Map (Value F G O) → Map (Value F G O) → Map (Value F G O)
  merge [] env = env
  merge ((k, v) ∷ more) env = merge more (insert k v env)

  unfoldable pub get_environment_attributes : Clock → Map (Value F G O) → Map (Value F G O)
  get_environment_attributes clock env = merge env (
      ("current_hour", int_value (i64 (clock.hour "")))
      ∷ ("current_day", text (clock.weekday ""))
      ∷ ("current_time", text clock.formatted)
      ∷ [])

  -- The loop that collects the enabled policies, over the IDs in the order of the range.
  unfoldable pub enabled_policies : Map (AbacPolicy F G O) → List String → List (AbacPolicy F G O)
  enabled_policies policies [] = []
  enabled_policies policies (id ∷ ids) =
      let rest = enabled_policies policies ids in
      elim (lookup id policies) [
        | none ↦ rest
        | some policy ↦ if policy.enabled then policy ∷ rest else rest
      ]

  unfoldable pub sort_policies : List (AbacPolicy F G O) → List (AbacPolicy F G O)
  sort_policies policies = sort_by_priority (λ policy. policy.priority) policies

  unfoldable pub evaluation_context :
      Clock → AccessRequest F G O → Map (Value F G O) → Map (Value F G O) → EvaluationContext F G O
  evaluation_context clock request subject resource = record {
    subject = subject;
    resource = resource;
    action = request.action;
    environment = get_environment_attributes clock request.environment;
    request_context = request.context;
  }

module _ {F G O : Type 0} (values : Values F G O) (clock : Clock) (e : AbacEngine F G O) where
  -- The test of the rule's condition.
  unfoldable pub condition_holds : AbacRule F G O → EvaluationContext F G O → Bool
  condition_holds rule input = if rule.condition == "" then true else (elim e.policy_engine [
    | none ↦ true
    | some evaluate ↦ elim (evaluate "condition" input) [ none ↦ false | some allow ↦ allow ]
  ])

  unfoldable pub rule_matches :
      AbacRule F G O → EvaluationContext F G O → AccessRequest F G O → Bool
  rule_matches rule input request =
      if not (match_action rule.actions request.action)
      then false
      else if not (match_attributes values rule.subject input.subject)
      then false
      else if not (rule.resource_type == "") && not (rule.resource_type == request.resource_type)
      then false
      else if not (match_attributes values rule.resource input.resource)
      then false
      else if not (match_environment values clock rule.environment input.environment)
      then false
      else condition_holds rule input

  -- The loop of `evaluatePolicy` over the rules.
  unfoldable pub first_rule :
      List (AbacRule F G O)
      → EvaluationContext F G O
      → AccessRequest F G O
      → Option (AbacRule F G O)
  first_rule [] input request = none
  first_rule (rule ∷ rules) input request =
      let rest = first_rule rules input request in
      if rule_matches rule input request then some rule else rest

  unfoldable pub evaluate_policy :
      AbacPolicy F G O → EvaluationContext F G O → AccessRequest F G O → Option AccessDecision
  evaluate_policy policy input request = elim (first_rule policy.rules input request) [
    | none ↦ none
    | some rule ↦
        some
          (record { allowed = rule.effect == "allow"; policy_id = policy.id; rule_id = rule.name })
  ]

  -- The loop of `Evaluate` over the sorted policies.
  unfoldable pub first_decision :
      List (AbacPolicy F G O) → EvaluationContext F G O → AccessRequest F G O → AccessDecision
  first_decision [] input request = denied
  first_decision (policy ∷ policies) input request =
      let rest = first_decision policies input request in
      elim (evaluate_policy policy input request) [ none ↦ rest | some decision ↦ decision ]

  unfoldable pub evaluate : RangeOrder → AccessRequest F G O → AccessDecision
  evaluate range request = elim (get_subject_attributes e request.subject) [
    | none ↦ denied
    | some subject ↦ elim (get_resource_attributes e request.resource) [
      | none ↦ denied
      | some resource ↦
          first_decision (sort_policies (enabled_policies e.policies (range 0 (keys e.policies))))
            (evaluation_context clock request subject resource) request
    ]
  ]
