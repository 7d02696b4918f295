-- ===== src/Rbac/Abac/FirstMatch.antt =====
-- internal/rbac/abac.go: the first rule and the first policy that match.
use platformfoundry_ce.Base.{
  ◌≡◌, ◌⊎◌, refl, ap, inl, inr, true, false, none, some, List, [], ◌∷◌, ◌++◌, Bool-cases, All, ◌==◌,
}
use platformfoundry_ce.Rbac.Abac.Match.{Values, Clock}
use platformfoundry_ce.Rbac.Abac.{
  AbacRule, AbacPolicy, AccessRequest, EvaluationContext, AbacEngine, AccessDecision, denied,
  rule_matches, first_rule, evaluate_policy, first_decision,
}

module _ {F G O : Type 0} (values : Values F G O) (clock : Clock) (e : AbacEngine F G O)
    (input : EvaluationContext F G O) (request : AccessRequest F G O) where
  -- No rule of the policy matches.
  abbrev pub NoMatch : AbacPolicy F G O → Type 0
  NoMatch policy = All (λ rule. rule_matches values clock e rule input request ≡ false) policy.rules

  -- The rule is the first of these that matches.
  abbrev pub IsFirst : List (AbacRule F G O) → AbacRule F G O → Type 0
  IsFirst rules rule =
      (before after : List (AbacRule F G O)) × (rules ≡ before ++ rule ∷ after)
      × All (λ r. rule_matches values clock e r input request ≡ false) before
      × (rule_matches values clock e rule input request ≡ true)

  abbrev pub decision : AbacPolicy F G O → AbacRule F G O → AccessDecision
  decision policy rule = record {
    allowed = rule.effect == "allow";
    policy_id = policy.id;
    rule_id = rule.name;
  }

  IsFirst-later :
      (skipped : AbacRule F G O) (rules : List (AbacRule F G O)) (rule : AbacRule F G O)
      → rule_matches values clock e skipped input request ≡ false
      → IsFirst rules rule
      → IsFirst (skipped ∷ rules) rule
  IsFirst-later skipped rules rule fails (before, after, same, all, matches) =
      (skipped ∷ before, after, ap (λ l. skipped ∷ l) same, (fails, all), matches)

  pub first_rule-cases :
      (rules : List (AbacRule F G O))
      → ((first_rule values clock e rules input request ≡ none)
          × All (λ r. rule_matches values clock e r input request ≡ false) rules)
        ⊎ ((rule : AbacRule F G O) × (first_rule values clock e rules input request ≡ some rule)
            × IsFirst rules rule)
  unfolding first_rule
  first_rule-cases [] = inl (refl, tt)
  first_rule-cases (rule ∷ rules) =
      elim (Bool-cases (rule_matches values clock e rule input request)) [
        | inl m ↦ inr (rule, rw (m, first_rule) refl, ([], rules, refl, tt, m))
        | inr m ↦ elim (first_rule-cases rules) [
          | inl (none_left, all) ↦ inl (rw (m, first_rule) none_left, (m, all))
          | inr (found, same, first) ↦
              inr (found, rw (m, first_rule) same, IsFirst-later rule rules found m first)
        ]
      ]

  -- What the loop over sorted policies decides.
  abbrev pub Decides : List (AbacPolicy F G O) → AccessDecision → Type 0
  Decides policies d =
      ((d ≡ denied) × All NoMatch policies)
      ⊎ ((policy : AbacPolicy F G O) × (rule : AbacRule F G O) × (before after : List
            (AbacPolicy F G O))
          × (policies ≡ before ++ policy ∷ after)
          × All NoMatch before
          × IsFirst policy.rules rule
          × (d ≡ decision policy rule))

  pub first_decision-Decides :
      (policies : List (AbacPolicy F G O))
      → Decides policies (first_decision values clock e policies input request)
  unfolding first_decision evaluate_policy
  first_decision-Decides [] = inl (refl, tt)
  first_decision-Decides (policy ∷ policies) = elim (first_rule-cases policy.rules) [
    | inr (rule, found, first) ↦ inr (
      policy,
      rule,
      [],
      policies,
      refl,
      tt,
      first,
      rw (found, evaluate_policy, first_decision) refl,
    )
    | inl (nothing, fails) ↦ elim (first_decision-Decides policies) [
      | inl (same, all) ↦ inl (rw (nothing, evaluate_policy, first_decision) same, (fails, all))
      | inr (p, rule, before, after, split, all, first, same) ↦ inr (
        p,
        rule,
        policy ∷ before,
        after,
        ap (λ l. policy ∷ l) split,
        (fails, all),
        first,
        rw (nothing, evaluate_policy, first_decision) same,
      )
    ]
  ]
