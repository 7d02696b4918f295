-- ===== src/Rbac/Abac/Gaps.antt =====
-- internal/rbac/abac.go: what the evaluation does not look at.
use platformfoundry_ce.Base.{
  String, ◌≡◌, refl, sym, ap, ◌∙◌, Bool, true, false, none, some, [], ◌∷◌, if◌then◌else◌, arith,
  ltb, ◌==◌, eq_refl, subst,
}
use mathlib.Core.List.Perm
use platformfoundry_ce.Base.Maps.{Map, lookup, keys, RangeOrder, VisitsAll}
use platformfoundry_ce.Rbac.Abac.Match.{
  Value, text, Values, Clock, AttributeMatcher, text_of, to_float64, match_text, match_number,
  match_attribute_value,
}
use platformfoundry_ce.Rbac.Abac.Sorting.{sort_by_priority, bubble_rounds, bubble}
use platformfoundry_ce.Rbac.Abac.{
  AbacRule, AbacPolicy, AccessRequest, EvaluationContext, AbacEngine, get_subject_attributes,
  get_resource_attributes, condition_holds, rule_matches, first_rule, evaluate_policy,
  first_decision, enabled_policies, sort_policies, evaluation_context, evaluate,
}

module _ {F G O : Type 0} (values : Values F G O) (clock : Clock) (e : AbacEngine F G O) where
  condition_holds_same :
      (rule : AbacRule F G O) (text' : String) (input : EvaluationContext F G O)
      → rule.condition == "" ≡ false
      → text' == "" ≡ false
      → condition_holds values clock e (record rule { condition = text' }) input
        ≡ condition_holds values clock e rule input
  unfolding condition_holds
  condition_holds_same rule text' input some_text some_other = ground arith

  -- Whatever the policy engine is: of two rules that differ in the texts of their conditions, neither
  -- empty, one matches a request exactly if the other does.
  pub condition_is_not_read :
      (rule : AbacRule F G O) (text' : String) (input : EvaluationContext F G O)
      (request : AccessRequest F G O)
      → rule.condition == "" ≡ false
      → text' == "" ≡ false
      → rule_matches values clock e (record rule { condition = text' }) input request
        ≡ rule_matches values clock e rule input request
  unfolding rule_matches
  condition_is_not_read rule text' input request some_text some_other =
      ground (arith, condition_holds_same rule text' input)

module _ {F G O : Type 0} (values : Values F G O) where
  -- A matcher without its bounds on numbers, and one without its tests on texts.
  abbrev pub without_bounds : AttributeMatcher F G O → AttributeMatcher F G O
  without_bounds m = record m { greater_than = none; less_than = none }

  abbrev pub without_texts : AttributeMatcher F G O → AttributeMatcher F G O
  without_texts m = record m { contains = ""; starts_with = ""; ends_with = ""; regex = "" }

  -- The tests that do not fit the type of a value are passed by: on a text a matcher says what it
  -- says without its bounds on numbers, and on any other value what it says without its tests on
  -- texts.
  pub match_attribute_value_types :
      (m : AttributeMatcher F G O) (s : String) (value : Value F G O)
      → text_of value ≡ none
      → (match_attribute_value values m (text s)
          ≡ match_attribute_value values (without_bounds m) (text s))
        × (match_attribute_value values m value
            ≡ match_attribute_value values (without_texts m) value)
  unfolding match_attribute_value match_text match_number text_of to_float64
  match_attribute_value_types m s value e = (refl, rw (e, match_attribute_value) refl)

-- The two orders of a map with two keys.
abbrev pub as_listed : RangeOrder
as_listed n ks = ks

abbrev pub swapped : RangeOrder
swapped n [] = []
swapped n (k ∷ []) = k ∷ []
swapped n (j ∷ k ∷ ks) = k ∷ j ∷ ks

pub swapped-VisitsAll : VisitsAll swapped
swapped-VisitsAll n [] = Perm.refl []
swapped-VisitsAll n (k ∷ []) = Perm.refl (k ∷ [])
swapped-VisitsAll n (j ∷ k ∷ ks) = Perm.swap j k ks

module _ {F G O : Type 0} where
  put_first :
      (x y : AbacPolicy F G O) (lower : Bool)
      → lower ≡ false
      → (if lower then y else x) ∷ (if lower then x else y) ∷ [] ≡ x ∷ y ∷ []
  put_first x y true h = cc
  put_first x y false h = refl

  sorted_pair :
      (x y : AbacPolicy F G O) → x.priority ≡ y.priority → sort_policies (x ∷ y ∷ []) ≡ x ∷ y ∷ []
  unfolding sort_policies sort_by_priority bubble_rounds bubble
  sorted_pair x y same = put_first x y (ltb x.priority y.priority) (ground (arith, same))

module _ {F G O : Type 0} (values : Values F G O) (clock : Clock) (e : AbacEngine F G O)
    (request : AccessRequest F G O) (subject resource : Map (Value F G O))
    (subject_known : get_subject_attributes e request.subject ≡ some subject)
    (resource_known : get_resource_attributes e request.resource ≡ some resource) (a b : String)
    (apart : a == b ≡ false) (p q : AbacPolicy F G O)
    (both : e.policies ≡ (a, p) ∷ (b, q) ∷ []) where
  abbrev input : EvaluationContext F G O
  input = evaluation_context clock request subject resource

  evaluate_lem :
      (range : RangeOrder)
      → evaluate values clock e range request
        ≡ first_decision values clock e
            (sort_policies (enabled_policies e.policies (range 0 (keys e.policies))))
            input
            request
  unfolding evaluate
  evaluate_lem range = rw (subject_known, resource_known, evaluate) refl

  decided_first :
      (x y : AbacPolicy F G O) (rule : AbacRule F G O)
      → x.priority ≡ y.priority
      → first_rule values clock e x.rules input request ≡ some rule
      → (first_decision values clock e (sort_policies (x ∷ y ∷ [])) input request).allowed
        ≡ rule.effect == "allow"
  unfolding first_decision evaluate_policy
  decided_first x y rule same first =
      rw (sorted_pair x y same) (rw (first, evaluate_policy, first_decision) refl)

  listed :
      p.enabled ≡ true
      → q.enabled ≡ true
      → enabled_policies e.policies (as_listed 0 (keys e.policies)) ≡ p ∷ q ∷ []
  unfolding enabled_policies keys lookup
  listed on_p on_q =
      subst (λ m. enabled_policies m (as_listed 0 (keys m)) ≡ p ∷ q ∷ []) (sym both)
        (ground (arith, eq_refl a, eq_refl b))

  listed_swapped :
      p.enabled ≡ true
      → q.enabled ≡ true
      → enabled_policies e.policies (swapped 0 (keys e.policies)) ≡ q ∷ p ∷ []
  unfolding enabled_policies keys lookup
  listed_swapped on_p on_q =
      subst (λ m. enabled_policies m (swapped 0 (keys m)) ≡ q ∷ p ∷ []) (sym both)
        (ground (arith, eq_refl a, eq_refl b))

  -- Where the store gives the attributes and the engine has exactly two policies, under different
  -- IDs, enabled and of the same priority: if each has a rule that matches, and of their first
  -- such rules one has the effect "allow" and the other has not, then one order in which Go may
  -- visit the map allows the request, and another denies it.
  pub evaluate_depends_on_order :
      (rule_p rule_q : AbacRule F G O)
      → p.enabled ≡ true
      → q.enabled ≡ true
      → p.priority ≡ q.priority
      → first_rule values clock e p.rules input request ≡ some rule_p
      → first_rule values clock e q.rules input request ≡ some rule_q
      → rule_p.effect == "allow" ≡ true
      → rule_q.effect == "allow" ≡ false
      → ((evaluate values clock e as_listed request).allowed ≡ true)
        × ((evaluate values clock e swapped request).allowed ≡ false)
  evaluate_depends_on_order rule_p rule_q on_p on_q same first_p first_q allows denies = (
    ap (λ d. d.allowed) (evaluate_lem as_listed)
        ∙ ap (λ l. (first_decision values clock e (sort_policies l) input request).allowed)
            (listed on_p on_q)
        ∙ decided_first p q rule_p same first_p
        ∙ allows,
    ap (λ d. d.allowed) (evaluate_lem swapped)
        ∙ ap (λ l. (first_decision values clock e (sort_policies l) input request).allowed)
            (listed_swapped on_p on_q)
        ∙ decided_first q p rule_q (sym same) first_q
        ∙ denies,
  )
