-- ===== src/Engine/Tests.antt =====
-- Runs of internal/engine/dependency_graph.go.
use platformfoundry_ce.Base.{
  String, ◌≡◌, ◌⊎◌, inr, refl, true, false, List, [], ◌∷◌, count, ◌↔◌, arith, eq_iff, All,
}
use mathlib.Core.List.Perm
use platformfoundry_ce.Base.Maps.{
  Map, lookup, insert, delete, has, flag, keys, adjust, RangeOrder, VisitsAll,
}
use platformfoundry_ce.Dag.Graph.{
  err, circular, back_edge, closed_path, link, unlink, drop_first, get_dependents, remove_node,
}
use platformfoundry_ce.Dag.Walks.{IsCycle, Acyclic}
use platformfoundry_ce.Dag.Levels.{get_parallel_execution_levels, topological_sort}
use platformfoundry_ce.EdgeSearch.{enter, leave, visit_dep, visit_deps, dfs, search_from}
use platformfoundry_ce.Engine.Graph.{
  DependencyGraph, new_dependency_graph, add_engine, remove_engine, engine_dependents,
  node_dependencies, detect_engine_cycle, reject_engine_cycle, engine_levels, engine_order,
  engine_has_cycle,
}
use platformfoundry_ce.Engine.Agree.{engine_levels-agrees}
use platformfoundry_ce.Engine.Readded.{after, remove_engine-add_engine}
use platformfoundry_ce.Engine.Resolver.{
  Resolver, new_resolver, mark_completed, is_completed, is_satisfied, get_output, ticked, wait_for,
  ready,
}
use platformfoundry_ce.Engine.Satisfied.{
  is_named, IsUnambiguous, IsDone, is_satisfied_iff, get_output-mark_completed, answer,
}
use platformfoundry_ce.Engine.Waiting.{is_wake, wait_for-ready}

abbrev as_listed : RangeOrder
as_listed n ks = ks

abbrev as_listed-VisitsAll : VisitsAll as_listed
as_listed-VisitsAll n ks = Perm.refl ks

program : Unit {0}
unfolding lookup keys has insert delete flag adjust count link unlink drop_first get_dependents
    remove_node enter leave visit_dep visit_deps dfs search_from new_dependency_graph add_engine
    remove_engine engine_dependents node_dependencies detect_engine_cycle reject_engine_cycle
    engine_levels engine_order engine_has_cycle
program = tt

abbrev base : DependencyGraph
base = add_engine new_dependency_graph "infra-1" "infra" []

abbrev two : DependencyGraph
two = add_engine base "app-1" "app" ("infra-1" ∷ [])

abbrev looped : DependencyGraph
looped = add_engine two "infra-1" "infra" ("app-1" ∷ [])

engine_levels-looped : engine_levels as_listed looped ≡ err (circular (back_edge "app-1" "infra-1"))
unfolding program
engine_levels-looped = refl

-- `app-1` is removed, and `infra-1` still lists it.
readded_stays :
    engine_dependents (after two "app-1" "app" ("infra-1" ∷ [])) "infra-1" ≡ "app-1" ∷ []
unfolding program
readded_stays = refl

engine_levels-agrees_example :
    (Acyclic looped.nodes
      × (engine_levels as_listed looped ≡ get_parallel_execution_levels as_listed looped.nodes)
      × (engine_order as_listed looped ≡ topological_sort as_listed looped.nodes))
    ⊎ ((a b : String) × (c : List String) × IsCycle looped.nodes c
        × (engine_levels as_listed looped ≡ err (circular (back_edge a b)))
        × (engine_order as_listed looped ≡ err (circular (back_edge a b)))
        × (get_parallel_execution_levels as_listed looped.nodes ≡ err (circular (closed_path c))))
engine_levels-agrees_example = engine_levels-agrees as_listed as_listed-VisitsAll looped

remove_engine-add_engine_example :
    (has "app-1" (after two "app-1" "app" ("infra-1" ∷ [])).nodes ≡ false)
    × (count "app-1" (engine_dependents (after two "app-1" "app" ("infra-1" ∷ [])) "infra-1")
        ≡ count "app-1" (engine_dependents two "infra-1"))
remove_engine-add_engine_example =
    remove_engine-add_engine two "app-1" "app" ("infra-1" ∷ []) "infra-1" "app-1" refl

base-IsUnambiguous : IsUnambiguous base
unfolding program is_named
base-IsUnambiguous = record {
  one = λ name a b ha hb. ground (arith, eq_iff "infra-1" a, eq_iff "infra-1" b);
  no_empty = refl;
}

abbrev idle : Resolver String
idle = new_resolver

abbrev infra_outputs : Map String
infra_outputs = ("endpoint", "https://infra") ∷ []

abbrev provisioned : Resolver String
provisioned = mark_completed "infra-1" infra_outputs idle

-- The application waits for `infra`, which names the engine `infra-1`, and for one that is not there.
is_satisfied_iff_example :
    (is_satisfied as_listed base provisioned ("infra" ∷ "dns" ∷ []) ≡ true)
    ↔ All (IsDone base provisioned) ("infra" ∷ "dns" ∷ [])
is_satisfied_iff_example =
    is_satisfied_iff as_listed as_listed-VisitsAll base base-IsUnambiguous provisioned
      ("infra" ∷ "dns" ∷ [])

infra-named : is_named base "infra" "infra-1" ≡ true
unfolding program is_named
infra-named = refl

idle-absent : has "infra" idle.outputs ≡ false
unfolding program new_resolver
idle-absent = refl

get_output-mark_completed_run :
    get_output as_listed base provisioned "infra" "endpoint"
    ≡ answer (lookup "endpoint" infra_outputs)
get_output-mark_completed_run =
    get_output-mark_completed as_listed as_listed-VisitsAll base base-IsUnambiguous idle "infra-1"
      "infra" "endpoint" infra_outputs (inr (infra-named, idle-absent))

infra-IsDone : All (IsDone base provisioned) ("infra" ∷ [])
unfolding program is_named is_completed mark_completed new_resolver
infra-IsDone = (λ id h. ground (arith, eq_iff "infra-1" id), tt)

ticked-wakes : is_wake ticked ≡ true
unfolding is_wake
ticked-wakes = refl

wait_for-ready_example :
    wait_for as_listed base ("infra" ∷ []) idle ((ticked, idle) ∷ (ticked, provisioned) ∷ [])
    ≡ ready
wait_for-ready_example =
    wait_for-ready as_listed as_listed-VisitsAll base ("infra" ∷ []) base-IsUnambiguous idle
      ((ticked, idle) ∷ []) ticked provisioned [] (ticked-wakes, tt) ticked-wakes infra-IsDone
