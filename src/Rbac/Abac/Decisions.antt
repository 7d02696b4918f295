-- ===== src/Rbac/Abac/Decisions.antt =====
-- internal/rbac/abac.go: which policy and which rule decide a request.
use platformfoundry_ce.Base.{
  ◌<◌, String, ◌≡◌, ◌⊎◌, ◌↔◌, refl, sym, subst, ◌∙◌, inl, inr, Bool, true, false, some, List, [],
  ◌∷◌, ◌++◌, if◌then◌else◌, arith, Bool-cases, Option-cases, All, All-map, All-append, ◌∈◌,
  contains-perm, ◌==◌, eq_iff,
}
use mathlib.Core.List.Perm
use platformfoundry_ce.Base.Maps.{
  Map, lookup, keys, contains-keys, has-lookup, RangeOrder, VisitsAll,
}
use platformfoundry_ce.Rbac.Abac.Match.{Value, Values, Clock}
use platformfoundry_ce.Rbac.Abac.Sorting.{
  IsSorted, AtMost, sort_by_priority-IsSorted, sort_by_priority-All,
}
use platformfoundry_ce.Rbac.Abac.FirstMatch.{
  NoMatch, IsFirst, decision, Decides, first_decision-Decides,
}
use platformfoundry_ce.Rbac.Abac.{
  AbacRule, AbacPolicy, AccessRequest, EvaluationContext, AbacEngine, AccessDecision, denied,
  get_subject_attributes, get_resource_attributes, enabled_policies, sort_policies,
  evaluation_context, evaluate,
}

module _ {F G O : Type 0} (values : Values F G O) (clock : Clock) (e : AbacEngine F G O)
    (input : EvaluationContext F G O) (request : AccessRequest F G O) where
  -- The policy stands in the map, enabled.
  abbrev Registered : Map (AbacPolicy F G O) → AbacPolicy F G O → Type 0
  Registered policies policy =
      (id : String) × (lookup id policies ≡ some policy) × (policy.enabled ≡ true)

  -- Either no enabled policy has a rule that matches, and the request is denied; or the first rule
  -- that matches of some enabled policy decides, and no enabled policy of a higher priority has one.
  abbrev pub Outcome : AccessDecision → Type 0
  Outcome d =
      ((d ≡ denied)
        × ((id : String) (policy : AbacPolicy F G O)
            → lookup id e.policies ≡ some policy
            → policy.enabled ≡ true
            → NoMatch values clock e input request policy))
      ⊎ ((policy : AbacPolicy F G O) × (rule : AbacRule F G O) × Registered e.policies policy
          × IsFirst values clock e input request policy.rules rule
          × (d ≡ decision values clock e input request policy rule)
          × ((id : String) (other : AbacPolicy F G O)
              → lookup id e.policies ≡ some other
              → other.enabled ≡ true
              → policy.priority < other.priority
              → NoMatch values clock e input request other))

module _ {F G O : Type 0} where
  enabled_policies-cons :
      (policies : Map (AbacPolicy F G O)) (id : String) (ids : List String) (p : AbacPolicy F G O)
      → lookup id policies ≡ some p
      → enabled_policies policies (id ∷ ids)
        ≡ (if p.enabled then p ∷ enabled_policies policies ids else enabled_policies policies ids)
  unfolding enabled_policies
  enabled_policies-cons policies id ids p e = rw (e, enabled_policies) refl

  All-if :
      (P : AbacPolicy F G O → Type 0) (on : Bool) (p : AbacPolicy F G O)
      (rest : List (AbacPolicy F G O))
      → All P (if on then p ∷ rest else rest) ↔ ((on ≡ true → P p) × All P rest)
  All-if P true p rest = (λ h. (λ t. h.0, h.1), λ h. (h.0 refl, h.1))
  All-if P false p rest = (λ h. (λ t. cc, h), λ h. h.1)

  enabled-Registered :
      (policies : Map (AbacPolicy F G O)) (ids : List String)
      → All
          (λ p. (id : String) × (lookup id policies ≡ some p) × (p.enabled ≡ true))
          (enabled_policies policies ids)
  unfolding enabled_policies
  enabled-Registered policies [] = tt
  enabled-Registered policies (id ∷ ids) = elim (Option-cases (lookup id policies)) [
    | inl e ↦ rw (e, enabled_policies) (enabled-Registered policies ids)
    | inr (p, e) ↦
        subst (All (λ p. (id : String) × (lookup id policies ≡ some p) × (p.enabled ≡ true)))
          (sym (enabled_policies-cons policies id ids p e))
          ((All-if _ p.enabled p (enabled_policies policies ids)).1
            (λ on. (id, e, on), enabled-Registered policies ids))
  ]

  All-tail :
      (P : AbacPolicy F G O → Type 0) (policies : Map (AbacPolicy F G O)) (k : String)
      (ids : List String)
      → All P (enabled_policies policies (k ∷ ids))
      → All P (enabled_policies policies ids)
  unfolding enabled_policies
  All-tail P policies k ids h = elim (Option-cases (lookup k policies)) [
    | inl e ↦
        let same : enabled_policies policies (k ∷ ids) ≡ enabled_policies policies ids =
          rw (e, enabled_policies) refl in
        subst (All P) same h
    | inr (p, e) ↦
        ((All-if P p.enabled p (enabled_policies policies ids)).0
          (subst (All P) (enabled_policies-cons policies k ids p e) h)).1
  ]

  -- What holds of all the enabled policies that the loop collects holds of each.
  enabled-at :
      (P : AbacPolicy F G O → Type 0) (policies : Map (AbacPolicy F G O)) (ids : List String)
      (id : String) (policy : AbacPolicy F G O)
      → All P (enabled_policies policies ids)
      → id ∈ ids
      → lookup id policies ≡ some policy
      → policy.enabled ≡ true
      → P policy
  unfolding enabled_policies
  enabled-at P policies [] id policy h there found on = cc
  enabled-at P policies (k ∷ ids) id policy h there found on = elim (Bool-cases (k == id)) [
    | inl same ↦
        let at_k : lookup k policies ≡ some policy =
          subst (λ i. lookup i policies ≡ some policy) (sym ((eq_iff k id).0 same)) found in
        ((All-if P policy.enabled policy (enabled_policies policies ids)).0
            (subst (All P) (enabled_policies-cons policies k ids policy at_k) h)).0
          on
    | inr apart ↦
        enabled-at P policies ids id policy (All-tail P policies k ids h) (ground arith) found on
  ]

  -- Of a sorted list, what stands behind a policy has no higher priority.
  behind-AtMost :
      (before : List (AbacPolicy F G O)) (policy : AbacPolicy F G O)
      (after : List (AbacPolicy F G O))
      → IsSorted (λ p. p.priority) (before ++ policy ∷ after)
      → AtMost (λ p. p.priority) policy.priority after
  behind-AtMost [] policy after h = h.0
  behind-AtMost (p ∷ before) policy after h = behind-AtMost before policy after h.1

  All-middle :
      (P : AbacPolicy F G O → Type 0) (before : List (AbacPolicy F G O)) (policy : AbacPolicy F G O)
      (after : List (AbacPolicy F G O))
      → All P (before ++ policy ∷ after)
      → P policy
  All-middle P [] policy after h = h.0
  All-middle P (p ∷ before) policy after h = All-middle P before policy after h.1

module _ {F G O : Type 0} (values : Values F G O) (clock : Clock) (e : AbacEngine F G O)
    (range : RangeOrder) (visits : VisitsAll range) (request : AccessRequest F G O)
    (subject resource : Map (Value F G O))
    (subject_known : get_subject_attributes e request.subject ≡ some subject)
    (resource_known : get_resource_attributes e request.resource ≡ some resource) where
  abbrev context : EvaluationContext F G O
  context = evaluation_context clock request subject resource

  collected : List (AbacPolicy F G O)
  collected = enabled_policies e.policies (range 0 (keys e.policies))

  in_range :
      (id : String) (policy : AbacPolicy F G O)
      → lookup id e.policies ≡ some policy
      → id ∈ range 0 (keys e.policies)
  in_range id policy found =
      contains-perm (keys e.policies) (range 0 (keys e.policies)) id
        (Perm.symm (visits 0 (keys e.policies)))
        (contains-keys e.policies id ∙ has-lookup id e.policies found)

  -- What holds of all sorted policies holds of each enabled one of the map.
  sorted-at :
      (P : AbacPolicy F G O → Type 0) (id : String) (policy : AbacPolicy F G O)
      → All P (sort_policies collected)
      → lookup id e.policies ≡ some policy
      → policy.enabled ≡ true
      → P policy
  unfolding sort_policies collected
  sorted-at P id policy all found on =
      enabled-at P e.policies (range 0 (keys e.policies)) id policy
        ((sort_by_priority-All (λ p. p.priority) P collected).1 all) (in_range id policy found)
        found on

  sorted-Registered :
      All
        (λ p. (id : String) × (lookup id e.policies ≡ some p) × (p.enabled ≡ true))
        (sort_policies collected)
  unfolding sort_policies collected
  sorted-Registered =
      (sort_by_priority-All (λ p. p.priority) _ collected).0
        (enabled-Registered e.policies (range 0 (keys e.policies)))

  policies-IsSorted : IsSorted (λ p. p.priority) (sort_policies collected)
  unfolding sort_policies
  policies-IsSorted = (sort_by_priority-IsSorted (λ p. p.priority) collected).0

  higher-NoMatch :
      (before : List (AbacPolicy F G O)) (policy : AbacPolicy F G O)
      (after : List (AbacPolicy F G O))
      → All (NoMatch values clock e context request) before
      → AtMost (λ p. p.priority) policy.priority after
      → All
          (λ other. policy.priority < other.priority → NoMatch values clock e context request other)
          (before ++ policy ∷ after)
  higher-NoMatch before policy after fails low =
      All-append _ before (policy ∷ after) (All-map before (λ other h higher. h) fails) (
        λ higher. absurd (omega arith),
        All-map after (λ other h higher. absurd (omega (arith, h))) low,
      )

  to_Outcome :
      (d : AccessDecision)
      → Decides values clock e context request (sort_policies collected) d
      → Outcome values clock e context request d
  to_Outcome d (inl (same, all)) = inl (
    same,
    λ id policy found on. sorted-at (NoMatch values clock e context request) id policy all found on,
  )
  to_Outcome d (inr (policy, rule, before, after, split, all, first, same)) =
      let sorted = subst (IsSorted (λ p. p.priority)) split policies-IsSorted in
      let higher =
        higher-NoMatch before policy after all (behind-AtMost before policy after sorted) in
      inr (
        policy,
        rule,
        All-middle _ before policy after (subst (All _) split sorted-Registered),
        first,
        same,
        λ id other found on.
            sorted-at (λ p. policy.priority < p.priority → NoMatch values clock e context request p)
              id other (subst (All _) (sym split) higher) found on,
      )

  -- For every order in which Go visits the map of policies, and attributes that the store gives:
  -- either no enabled policy has a rule that matches the request, and it is denied; or an enabled
  -- policy decides by the first of its rules that matches, which allows exactly if its effect is
  -- "allow", and no enabled policy of a higher priority has a rule that matches.
  pub evaluate-Outcome :
      Outcome values clock e context request (evaluate values clock e range request)
  unfolding evaluate collected
  evaluate-Outcome =
      rw (subject_known, resource_known, evaluate)
        (to_Outcome _
          (first_decision-Decides values clock e context request (sort_policies collected)))
