-- ===== src/Environment/Chain.antt =====
-- internal/environment/resolver.go: the check of the promotion chain.
use platformfoundry_ce.Base.{ℕ, zero, suc, String, none, some, List, [], ◌∷◌, if◌then◌else◌, length}
use platformfoundry_ce.Base.Maps.{Map, lookup, insert, keys, flag, RangeOrder}
use platformfoundry_ce.Environment.Resolver.{Environment}
use platformfoundry_ce.EdgeSearch.{
  State, Outcome, clear, found, out_of_fuel, and_then, enter, leave,
}

unfoldable pub add_promotion : Environment → Map String → Map String
add_promotion env m = elim env.promotes_to [ none ↦ m | some target ↦ insert env.name target m ]

unfoldable pub promotion_map : List Environment → Map String → Map String
promotion_map [] m = m
promotion_map (env ∷ envs) m = promotion_map envs (add_promotion env m)

unfoldable pub detect_promotion_cycle : Map String → ℕ → String → State → Outcome
detect_promotion_cycle m zero env s = out_of_fuel
detect_promotion_cycle m (suc fuel) env s =
    let entered = enter env s in
    elim (lookup env m) [
      | none ↦ clear (leave env entered)
      | some next ↦
          if flag next entered.visited
          then (if flag next entered.recursion_stack
              then found env next
              else clear (leave env entered))
          else and_then (detect_promotion_cycle m fuel next entered) (λ t. clear (leave env t))
    ]

-- The loop over the keys: each call has the visited flags of all calls and a stack of its own.
unfoldable pub check_from : Map String → ℕ → List String → State → Outcome
check_from m fuel [] s = clear s
check_from m fuel (env ∷ envs) s =
    and_then (detect_promotion_cycle m fuel env (record s { recursion_stack = [] }))
      (check_from m fuel envs)

-- `ValidateEnvironmentChain`. A call goes on only to an environment that is new.
unfoldable pub validate_environment_chain : RangeOrder → List Environment → Outcome
validate_environment_chain range envs =
    let m = promotion_map envs [] in
    check_from m (suc (suc (length m))) (range 0 (keys m))
      (record { visited = []; recursion_stack = [] })
