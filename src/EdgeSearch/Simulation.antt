-- ===== src/EdgeSearch/Simulation.antt =====
-- The search of internal/engine/dependency_graph.go and internal/orchestrator/dependency.go against
-- that of internal/workflow/dag/graph.go, which keeps the path as well.
use platformfoundry_ce.Base.{
  ℕ, zero, suc, String, ◌≡◌, refl, sym, subst, inl, inr, Bool, true, false, Option, some, List, [],
  ◌∷◌, if◌then◌else◌, Bool-cases, All,
}
use platformfoundry_ce.Base.Maps.{lookup, has, flag, lookup-has}
use platformfoundry_ce.Dag.Graph.{Node, Graph}
use platformfoundry_ce.Dag.Search
use platformfoundry_ce.EdgeSearch.{
  State, Outcome, clear, found, nil_node, out_of_fuel, and_then, enter, leave, visit_dep,
  visit_deps, dfs, search_from,
}

abbrev pub forget : Search.State → State
forget t = record { visited = t.visited; recursion_stack = t.recursion_stack }

-- Both searches go on in the same state, or both have found a cycle, or both have failed.
abbrev pub Same : Outcome → Search.Outcome → Type 0
Same (clear s) (Search.clear t) = s ≡ forget t
Same (found a b) (Search.found c) = Unit
Same nil_node Search.nil_node = Unit
Same out_of_fuel Search.out_of_fuel = Unit
Same _ _ = ⊥

and_then-Same :
    (o : Outcome) (o' : Search.Outcome) (f : State → Outcome) (f' : Search.State → Search.Outcome)
    → Same o o'
    → ((t : Search.State) → Same (f (forget t)) (f' t))
    → Same (and_then o f) (Search.and_then o' f')
and_then-Same (clear s) (Search.clear t) f f' h next =
    subst (λ x. Same (f x) (f' t)) (sym h) (next t)
and_then-Same (clear s) (Search.found c) f f' h next = elim h [ ]
and_then-Same (clear s) Search.nil_node f f' h next = elim h [ ]
and_then-Same (clear s) Search.out_of_fuel f f' h next = elim h [ ]
and_then-Same (found a b) (Search.clear t) f f' h next = elim h [ ]
and_then-Same (found a b) (Search.found c) f f' h next = tt
and_then-Same (found a b) Search.nil_node f f' h next = elim h [ ]
and_then-Same (found a b) Search.out_of_fuel f f' h next = elim h [ ]
and_then-Same nil_node (Search.clear t) f f' h next = elim h [ ]
and_then-Same nil_node (Search.found c) f f' h next = elim h [ ]
and_then-Same nil_node Search.nil_node f f' h next = tt
and_then-Same nil_node Search.out_of_fuel f f' h next = elim h [ ]
and_then-Same out_of_fuel (Search.clear t) f f' h next = elim h [ ]
and_then-Same out_of_fuel (Search.found c) f f' h next = elim h [ ]
and_then-Same out_of_fuel Search.nil_node f f' h next = elim h [ ]
and_then-Same out_of_fuel Search.out_of_fuel f f' h next = tt

if-Same :
    (b : Bool) (x y : Outcome) (x' y' : Search.Outcome)
    → Same x x'
    → (b ≡ false → Same y y')
    → Same (if b then x else y) (if b then x' else y')
if-Same true x y x' y' h k = h
if-Same false x y x' y' h k = k refl

module _ (g : Graph) (deps_of : String → Option (List String)) (present : String → Bool)
    (same_nodes : (d : String) → present d ≡ has d g)
    (same_deps : (id : String) (node : Node)
      → lookup id g ≡ some node
      → deps_of id ≡ some node.dependencies) where
  abbrev Agree : (String → State → Outcome) → (String → Search.State → Search.Outcome) → Type 0
  Agree visit visit' =
      (id : String) (t : Search.State) → has id g ≡ true → Same (visit id (forget t)) (visit' id t)

  visit_dep-Same :
      (visit : String → State → Outcome) (visit' : String → Search.State → Search.Outcome)
      → Agree visit visit'
      → (id dep : String) (t : Search.State)
      → Same
          (visit_dep deps_of present visit id dep (forget t))
          (Search.visit_dep g visit' id dep t)
  unfolding visit_dep Search.visit_dep
  visit_dep-Same visit visit' agree id dep t = rw same_nodes (elim (Bool-cases (has dep g)) [
    | inr absent ↦ rw absent refl
    | inl there ↦ rw there (
        if-Same (flag dep t.visited) _ _ _ _
          (if-Same (flag dep t.recursion_stack) _ _ _ _ tt (λ e. refl)) (λ e. agree dep t there))
  ])

  visit_deps-Same :
      (visit : String → State → Outcome) (visit' : String → Search.State → Search.Outcome)
      → Agree visit visit'
      → (id : String) (deps : List String) (t : Search.State)
      → Same
          (visit_deps deps_of present visit id deps (forget t))
          (Search.visit_deps g visit' id deps t)
  unfolding visit_deps Search.visit_deps
  visit_deps-Same visit visit' agree id [] t = refl
  visit_deps-Same visit visit' agree id (dep ∷ deps) t =
      and_then-Same _ _ _ _ (visit_dep-Same visit visit' agree id dep t)
        (visit_deps-Same visit visit' agree id deps)

  dfs-Same : (fuel : ℕ) → Agree (dfs deps_of present fuel) (Search.dfs g fuel)
  unfolding dfs Search.dfs enter leave Search.enter Search.leave
  dfs-Same zero id t there = tt
  dfs-Same (suc fuel) id t there =
      let (node, e) = lookup-has id g there in
      rw (e, same_deps id node e, dfs, Search.dfs)
        (and_then-Same _ _ _ _
          (visit_deps-Same _ _ (dfs-Same fuel) id node.dependencies (Search.enter id t))
          (λ u. refl))

  -- The two searches agree, over names that are all in the graph.
  pub search_from-Same :
      (fuel : ℕ) (ids : List String) (t : Search.State)
      → All (λ id. has id g ≡ true) ids
      → Same (search_from deps_of present fuel ids (forget t)) (Search.search_from g fuel ids t)
  unfolding search_from Search.search_from
  search_from-Same fuel [] t all = refl
  search_from-Same fuel (id ∷ ids) t (there, all) =
      and_then-Same _ _ _ _
        (if-Same (flag id t.visited) _ _ _ _ refl (λ e. dfs-Same fuel id t there))
        (λ u. search_from-Same fuel ids u all)
