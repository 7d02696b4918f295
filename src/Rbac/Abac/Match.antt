-- ===== src/Rbac/Abac/Match.antt =====
-- internal/rbac/abac.go: the matchers of actions, attributes and times. A value of `interface{}` is a
-- text, a number of one of the five types that toFloat64 reads, or something else. Floats, regular
-- expressions and the bytes of a text are the language's: arguments. Two values whose type cannot be
-- compared, at which Go's == panics, are the argument's to decide.
use platformfoundry_ce.Base.{
  ℕ, String, Bool, true, false, not, ◌&&◌, ◌||◌, Option, none, some, List, [], ◌∷◌, if◌then◌else◌,
  ltb, leb, ◌==◌,
}
use platformfoundry_ce.Base.Int64.{Int64, i64}
use platformfoundry_ce.Base.Maps.{Map, lookup}
use platformfoundry_ce.Rbac.Abac.Strings.{
  Bytes, contains_string, starts_with_string, ends_with_string,
}

-- `F` is float64, `G` float32, `O` all other types.
pub data Value (F G O : Type 0) : Type 0 where
  text : String → Value F G O
  int_value int32_value int64_value : Int64 → Value F G O
  float32_value : G → Value F G O
  float64_value : F → Value F G O
  other : O → Value F G O

pub record Values (F G O : Type 0) : Type 0 where
  pub of_int : Int64 → F
  pub of_float32 : G → F
  pub le : F → F → Bool
  pub same_float32 : G → G → Bool
  pub same_float64 : F → F → Bool
  pub same_other : O → O → Bool
  pub bytes : String → Bytes
  pub matches_regex : String → String → Bool

-- The time now: the hour and the name of the day in a time zone, the local one for the empty name
-- and for a name that is not known, and the time as a text.
pub record Clock : Type 0 where
  pub hour : String → ℕ
  pub weekday : String → String
  pub formatted : String

-- A nil or empty part is not tested.
pub record AttributeMatcher (F G O : Type 0) : Type 0 where
  pub equals : Option (Value F G O)
  pub not_equals : Option (Value F G O)
  pub one_of : List (Value F G O)
  pub none_of : List (Value F G O)
  pub contains : String
  pub starts_with : String
  pub ends_with : String
  pub regex : String
  pub greater_than : Option F
  pub less_than : Option F

pub record TimeRange : Type 0 where
  pub start_hour : Int64
  pub end_hour : Int64
  pub days : List String
  pub timezone : String

-- The source's IPRange and Locations are read by no method.
pub record EnvironmentMatcher (F G O : Type 0) : Type 0 where
  pub time_range : Option TimeRange
  pub attributes : Map (AttributeMatcher F G O)

unfoldable pub match_action : List String → String → Bool
match_action [] action = false
match_action (a ∷ actions) action =
    let rest = match_action actions action in if a == "*" || a == action then true else rest

abbrev pub same_int : Int64 → Int64 → Bool
same_int a b = leb a b && leb b a

unfoldable pub in_days : List String → String → Bool
in_days [] day = false
in_days (d ∷ days) day = let rest = in_days days day in if d == day then true else rest

unfoldable pub match_time_range : Clock → TimeRange → Bool
match_time_range clock tr =
    let hour = i64 (clock.hour tr.timezone) in
    if ltb hour tr.start_hour || leb tr.end_hour hour
    then false
    else (elim tr.days [ [] ↦ true | d ∷ days ↦ in_days (d ∷ days) (clock.weekday tr.timezone) ])

module _ {F G O : Type 0} where
  -- `value.(string)`
  unfoldable pub text_of : Value F G O → Option String
  text_of (text s) = some s
  text_of (int_value n) = none
  text_of (int32_value n) = none
  text_of (int64_value n) = none
  text_of (float32_value x) = none
  text_of (float64_value x) = none
  text_of (other o) = none

module _ {F G O : Type 0} (values : Values F G O) where
  -- `a == b` of two interface values.
  unfoldable pub same_value : Value F G O → Value F G O → Bool
  same_value (text a) (text b) = a == b
  same_value (int_value a) (int_value b) = same_int a b
  same_value (int32_value a) (int32_value b) = same_int a b
  same_value (int64_value a) (int64_value b) = same_int a b
  same_value (float32_value a) (float32_value b) = values.same_float32 a b
  same_value (float64_value a) (float64_value b) = values.same_float64 a b
  same_value (other a) (other b) = values.same_other a b
  same_value _ _ = false

  unfoldable pub to_float64 : Value F G O → Option F
  to_float64 (text s) = none
  to_float64 (int_value n) = some (values.of_int n)
  to_float64 (int32_value n) = some (values.of_int n)
  to_float64 (int64_value n) = some (values.of_int n)
  to_float64 (float32_value x) = some (values.of_float32 x)
  to_float64 (float64_value x) = some x
  to_float64 (other o) = none

  -- The loops over `In` and `NotIn`: whether the value is in the list.
  unfoldable pub is_among : Value F G O → List (Value F G O) → Bool
  is_among value [] = false
  is_among value (v ∷ vs) =
      let rest = is_among value vs in if same_value value v then true else rest

  unfoldable pub match_text : AttributeMatcher F G O → String → Bool
  match_text matcher s =
      if not (matcher.contains == "")
        && not (contains_string (values.bytes s) (values.bytes matcher.contains))
      then false
      else if not (matcher.starts_with == "")
          && not (starts_with_string (values.bytes s) (values.bytes matcher.starts_with))
      then false
      else if not (matcher.ends_with == "")
          && not (ends_with_string (values.bytes s) (values.bytes matcher.ends_with))
      then false
      else if not (matcher.regex == "") && not (values.matches_regex matcher.regex s)
      then false
      else true

  unfoldable pub match_number : AttributeMatcher F G O → F → Bool
  match_number matcher x =
      if elim matcher.greater_than [ none ↦ false | some bound ↦ values.le x bound ]
      then false
      else if elim matcher.less_than [ none ↦ false | some bound ↦ values.le bound x ]
      then false
      else true

  unfoldable pub is_empty : List (Value F G O) → Bool
  is_empty [] = true
  is_empty (v ∷ vs) = false

  unfoldable pub match_attribute_value : AttributeMatcher F G O → Value F G O → Bool
  match_attribute_value matcher value =
      if elim matcher.equals [ none ↦ false | some v ↦ not (same_value value v) ]
      then false
      else if elim matcher.not_equals [ none ↦ false | some v ↦ same_value value v ]
      then false
      else if not (is_empty matcher.one_of) && not (is_among value matcher.one_of)
      then false
      else if is_among value matcher.none_of
      then false
      else if elim (text_of value) [ none ↦ false | some s ↦ not (match_text matcher s) ]
      then false
      else (elim (to_float64 value) [ none ↦ true | some x ↦ match_number matcher x ])

  -- The loop over the matchers stops at the first that fails, so their order does not matter.
  unfoldable pub match_attributes : Map (AttributeMatcher F G O) → Map (Value F G O) → Bool
  match_attributes [] attrs = true
  match_attributes ((key, matcher) ∷ more) attrs =
      let rest = match_attributes more attrs in
      elim (lookup key attrs) [
        | none ↦ false
        | some value ↦ if not (match_attribute_value matcher value) then false else rest
      ]

  unfoldable pub match_environment : Clock → EnvironmentMatcher F G O → Map (Value F G O) → Bool
  match_environment clock matcher env =
      if elim matcher.time_range [ none ↦ false | some tr ↦ not (match_time_range clock tr) ]
      then false
      else match_attributes matcher.attributes env
