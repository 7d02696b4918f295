-- ===== src/Environment/Promotion.antt =====
-- internal/environment/resolver.go: `ValidateEnvironmentChain` decides whether a promotion chain
-- returns to where it was.
use platformfoundry_ce.Base.{
  ℕ, zero, suc, ◌<◌, String, ◌≡◌, ◌⊎◌, sym, subst, inl, inr, true, false, none, some, List, [], ◌∷◌,
  if◌then◌else◌, arith, ◌==◌, eq_iff, Bool-cases, Option-cases, length, ◌∈◌, All, All-at,
  contains-perm,
}
use mathlib.Core.List.Perm
use platformfoundry_ce.Base.Maps.{
  Map, lookup, has, keys, flag, flag-nil, flag-insert, unseen, unseen-insert-lt, unseen-le-length,
  length-keys, contains-keys, has-lookup, lookup-absent, RangeOrder, VisitsAll,
}
use platformfoundry_ce.EdgeSearch.{
  State, Outcome, clear, found, nil_node, out_of_fuel, and_then, enter, leave,
}
use platformfoundry_ce.Environment.Resolver.{Environment}
use platformfoundry_ce.Environment.Chain.{
  promotion_map, detect_promotion_cycle, check_from, validate_environment_chain,
}

-- The chain from here comes to an environment that promotes to none.
pub data Stops (m : Map String) : String → Type 0 where
  here : {a : String} → lookup a m ≡ none → Stops m a
  there : {a b : String} → lookup a m ≡ some b → Stops m b → Stops m a

-- The chain from the one comes, by one promotion or more, to the other.
pub data Leads (m : Map String) : String → String → Type 0 where
  one : {a b : String} → lookup a m ≡ some b → Leads m a b
  more : {a b c : String} → lookup a m ≡ some b → Leads m b c → Leads m a c

module _ (m : Map String) where
  Leads-snoc : {a b c : String} → Leads m a b → lookup b m ≡ some c → Leads m a c
  Leads-snoc (one e) e' = more e (one e')
  Leads-snoc (more e l) e' = more e (Leads-snoc l e')

  -- What the flags say when the search stands before `env`: what is visited and off the stack
  -- stops, and what is on the stack leads to `env`.
  record Known (env : String) (s : State) : Type 0 where
    stops : (a : String) → flag a s.visited ≡ true → flag a s.recursion_stack ≡ false → Stops m a
    leads : (a : String) → flag a s.recursion_stack ≡ true → Leads m a env

  -- What holds between the state before a call and after it.
  record Grown (s t : State) : Type 0 where
    seen : (a : String) → flag a s.visited ≡ true → flag a t.visited ≡ true
    stack : (a : String) → flag a t.recursion_stack ≡ true → flag a s.recursion_stack ≡ true
    stops : (a : String) → flag a t.visited ≡ true → flag a t.recursion_stack ≡ false → Stops m a

  -- A call ends with `env` stopping, or with a promotion that closes a cycle.
  abbrev Ends : (State → Type 0) → Outcome → Type 0
  Ends Q (clear t) = Q t
  Ends Q (found a b) = (lookup a m ≡ some b) × ((b ≡ a) ⊎ Leads m b a)
  Ends Q nil_node = ⊥
  Ends Q out_of_fuel = ⊥

  Ends-and_then :
      (Q R : State → Type 0) (o : Outcome) (f : State → Outcome)
      → Ends Q o
      → ((t : State) → Q t → Ends R (f t))
      → Ends R (and_then o f)
  Ends-and_then Q R (clear t) f q next = next t q
  Ends-and_then Q R (found a b) f q next = q
  Ends-and_then Q R nil_node f q next = q
  Ends-and_then Q R out_of_fuel f q next = q

  Ends-map : (Q R : State → Type 0) (o : Outcome) → ((t : State) → Q t → R t) → Ends Q o → Ends R o
  Ends-map Q R (clear t) f q = f t q
  Ends-map Q R (found a b) f q = q
  Ends-map Q R nil_node f q = q
  Ends-map Q R out_of_fuel f q = q

  -- `env` is left: it stops.
  leave-Grown :
      (env : String) (s t : State) → Grown (enter env s) t → Stops m env → Grown s (leave env t)
  unfolding enter leave
  leave-Grown env s t grown stop = record {
    seen = λ a h. grown.seen a (ground (arith, flag-insert env a true s.visited));
    stack = λ a h. ground (
      arith,
      flag-insert env a false t.recursion_stack,
      grown.stack a,
      flag-insert env a true s.recursion_stack,
    );
    stops = λ a v o. elim (Bool-cases (env == a)) [
      | inl e ↦ subst (Stops m) ((eq_iff env a).0 e) stop
      | inr e ↦ grown.stops a v (ground (arith, flag-insert env a false t.recursion_stack))
    ];
  }

  enter-Grown :
      (env : String) (s : State) → Known env s → Stops m env → Grown (enter env s) (enter env s)
  unfolding enter
  enter-Grown env s k stop = record {
    seen = λ a h. h;
    stack = λ a h. h;
    stops = λ a v o.
        k.stops a
          (ground
            (arith, flag-insert env a true s.visited, flag-insert env a true s.recursion_stack))
          (ground (arith, flag-insert env a true s.recursion_stack));
  }

  enter-Known :
      (env next : String) (s : State)
      → lookup env m ≡ some next
      → Known env s
      → Known next (enter env s)
  unfolding enter
  enter-Known env next s e k = record {
    stops = λ a v o.
        k.stops a
          (ground
            (arith, flag-insert env a true s.visited, flag-insert env a true s.recursion_stack))
          (ground (arith, flag-insert env a true s.recursion_stack));
    leads = λ a h. elim (Bool-cases (env == a)) [
      | inl same ↦ subst (λ x. Leads m x next) ((eq_iff env a).0 same) (one e)
      | inr apart ↦
          Leads-snoc (k.leads a (ground (arith, flag-insert env a true s.recursion_stack))) e
    ];
  }

  -- Each call that goes on marks a new environment of the map.
  record Enough (fuel : ℕ) (env : String) (s : State) : Type 0 where
    some_fuel : 0 < fuel
    more_fuel :
        (next : String)
        → lookup env m ≡ some next
        → suc (unseen (enter env s).visited (keys m)) < fuel

  enter-Enough :
      (fuel : ℕ) (env next : String) (s : State)
      → Enough (suc fuel) env s
      → lookup env m ≡ some next
      → flag next (enter env s).visited ≡ false
      → Enough fuel next (enter env s)
  unfolding enter
  enter-Enough fuel env next s enough e new = record {
    some_fuel = omega (arith, enough.more_fuel next e);
    more_fuel = λ later e'. omega (
      arith,
      enough.more_fuel next e,
      unseen-insert-lt (enter env s).visited (keys m) next
          (rw (contains-keys m next) (has-lookup next m e')) new,
    );
  }

  -- The promotion from `env` to one that is visited.
  visited-Ends :
      (env next : String) (s : State)
      → Known env s
      → lookup env m ≡ some next
      → flag next (enter env s).visited ≡ true
      → Ends
          (λ t. Grown s t × Stops m env)
          (if flag next (enter env s).recursion_stack
            then found env next
            else clear (leave env (enter env s)))
  visited-Ends env next s k e old = elim (Bool-cases (flag next (enter env s).recursion_stack)) [
    | inl on ↦ rw on (e, back on)
    | inr off ↦
        let stop : Stops m env = there e ((enter-Known env next s e k).stops next old off) in
        rw off (leave-Grown env s (enter env s) (enter-Grown env s k stop) stop, stop)
  ]
    where
      back : flag next (enter env s).recursion_stack ≡ true → (next ≡ env) ⊎ Leads m next env
      back on = elim (Bool-cases (env == next)) [
        | inl same ↦ inl (sym ((eq_iff env next).0 same))
        | inr apart ↦ inr (
            k.leads next
              (unfold enter in ground (arith, flag-insert env next true s.recursion_stack)))
      ]

  detect-Ends :
      (fuel : ℕ) (env : String) (s : State)
      → Known env s
      → Enough fuel env s
      → Ends (λ t. Grown s t × Stops m env) (detect_promotion_cycle m fuel env s)
  unfolding detect_promotion_cycle
  detect-Ends zero env s k enough = absurd (omega (arith, enough.some_fuel))
  detect-Ends (suc fuel) env s k enough = elim (Option-cases (lookup env m)) [
    | inl e ↦
        rw (e, detect_promotion_cycle)
          (leave-Grown env s (enter env s) (enter-Grown env s k (here e)) (here e), here e)
    | inr (next, e) ↦ (elim (Bool-cases (flag next (enter env s).visited)) [
      | inl old ↦ rw (e, old, detect_promotion_cycle) (visited-Ends env next s k e old)
      | inr new ↦
          rw (e, new, detect_promotion_cycle)
            (Ends-and_then (λ t. Grown (enter env s) t × Stops m next) _ _ _
              (detect-Ends fuel next (enter env s) (enter-Known env next s e k)
                (enter-Enough fuel env next s enough e new))
              λ t (grown, stop). (leave-Grown env s t grown (there e stop), there e stop))
    ])
  ]

  check_from-Ends :
      (envs : List String) (s : State)
      → ((a : String) → flag a s.visited ≡ true → Stops m a)
      → Ends (λ t. All (Stops m) envs) (check_from m (suc (suc (length m))) envs s)
  unfolding check_from
  check_from-Ends [] s stops = tt
  check_from-Ends (env ∷ envs) s stops =
      Ends-and_then (λ t. Grown start t × Stops m env) (λ t. All (Stops m) (env ∷ envs)) _ _
        (detect-Ends (suc (suc (length m))) env start known enough)
        λ t (grown, stop).
          Ends-map (λ u. All (Stops m) envs) (λ u. All (Stops m) (env ∷ envs)) _
            (λ u all. (stop, all))
            (check_from-Ends envs t
              (λ a v. grown.stops a v (ground (arith, grown.stack a, flag-nil a))))
    where
      start : State
      start = record s { recursion_stack = [] }

      known : Known env start
      known = record { stops = λ a v o. stops a v; leads = λ a h. absurd (cc (flag-nil a, h)) }

      enough : Enough (suc (suc (length m))) env start
      enough = record {
        some_fuel = omega arith;
        more_fuel = λ next e.
            omega (arith, unseen-le-length (enter env start).visited (keys m), length-keys {0} m);
      }

-- What an outcome says of the promotions.
abbrev pub DecidesChain : Map String → Outcome → Type 0
DecidesChain m (clear s) = (a : String) → Stops m a
DecidesChain m (found a b) = (lookup a m ≡ some b) × Leads m a a
DecidesChain m nil_node = ⊥
DecidesChain m out_of_fuel = ⊥

Ends-DecidesChain :
    (m : Map String) (envs : List String)
    → ((a : String) → has a m ≡ true → a ∈ envs)
    → (o : Outcome) → Ends m (λ t. All (Stops m) envs) o
    → DecidesChain m o
Ends-DecidesChain m envs all (clear s) h = λ a. elim (Bool-cases (has a m)) [
  | inl e ↦ All-at (Stops m) envs a h (all a e)
  | inr e ↦ here (lookup-absent a m e)
]
Ends-DecidesChain m envs all (found a b) (e, inl same) = (e, subst (λ x. Leads m a x) same (one e))
Ends-DecidesChain m envs all (found a b) (e, inr back) = (e, more e back)
Ends-DecidesChain m envs all nil_node h = h
Ends-DecidesChain m envs all out_of_fuel h = h

-- For every order in which Go visits the map: the check of a promotion chain ends; where it accepts,
-- from every environment the promotions come to one that promotes to none; where it names a
-- promotion, that is one, and the promotions lead from its environment back to it.
pub validate_environment_chain-DecidesChain :
    (range : RangeOrder)
    → VisitsAll range
    → (envs : List Environment)
    → DecidesChain (promotion_map envs []) (validate_environment_chain range envs)
unfolding validate_environment_chain
validate_environment_chain-DecidesChain range visits envs =
    let m = promotion_map envs [] in
    Ends-DecidesChain m (range 0 (keys m))
      (λ a h. contains-perm _ _ a (Perm.symm (visits 0 (keys m))) (rw (contains-keys m a) h)) _
      (check_from-Ends m (range 0 (keys m)) (record { visited = []; recursion_stack = [] })
        (λ a v. absurd (cc (flag-nil a, v))))
