-- ===== src/Orchestrator/Tests.antt =====
-- Runs of internal/orchestrator: dependency.go, orchestrator.go and rollback.go.
use platformfoundry_ce.Base.{
  String, ◌≡◌, refl, Bool, true, false, List, [], ◌∷◌, some, none, Distinct, All,
}
use mathlib.Core.List.Perm
use platformfoundry_ce.Base.Maps.{
  Map, lookup, insert, delete, has, flag, keys, RangeOrder, VisitsAll,
}
use platformfoundry_ce.EdgeSearch.{enter, leave, visit_dep, visit_deps, dfs, search_from}
use platformfoundry_ce.Orchestrator.Dependency.{
  Value, Resource, text, items, DependencyResolver, new_dependency_resolver, text_at, texts,
  texts_at, find_cluster_dependency, find_pipeline_dependency, kind_dependencies,
  extract_dependencies, add_resource, dependencies, detect_cycles, mark, push, visit_each, visit,
  visit_all, collect, sorted, resolve, resolved, circular, dependents_from, get_dependents,
}
use platformfoundry_ce.Orchestrator.Apply.{
  Plugin, Env, applied, Store, missing_provider, provider_of, get, save, run_plugin, apply_resource,
  delete_resource, apply_each, add_resources, resolve_dependencies, apply,
}
use platformfoundry_ce.Orchestrator.Rollback.{
  done, failed, planned, plan_resources, create_rollback_plan, restore, rollback_resource,
  rollback_each, execute_rollback,
}
use platformfoundry_ce.Orchestrator.Restored.{execute_rollback-deletes}
use platformfoundry_ce.Orchestrator.Order.{AnswersBatch, resolve-AnswersBatch}

abbrev as_listed : RangeOrder
as_listed n ks = ks

abbrev as_listed-VisitsAll : VisitsAll as_listed
as_listed-VisitsAll n ks = Perm.refl ks

abbrev cluster : Resource
cluster = record { name = "prod"; kind = "Cluster"; spec = [] }

abbrev app : Resource
app = record {
  name = "app";
  kind = "Application";
  spec = ("cluster", text "prod") ∷ ("dependsOn", items (some "db" ∷ none ∷ [])) ∷ [];
}

abbrev looped : Resource
looped = record { name = "prod"; kind = "Cluster"; spec = ("clusterRef", text "app") ∷ [] }

abbrev batch_of : Resource → DependencyResolver
batch_of resource = add_resource resource (add_resource app new_dependency_resolver)

program : Unit {0}
unfolding lookup keys has insert flag new_dependency_resolver text_at texts texts_at
    find_cluster_dependency find_pipeline_dependency kind_dependencies extract_dependencies
    add_resource dependencies detect_cycles enter leave visit_dep visit_deps dfs search_from mark
    push visit_each visit visit_all collect sorted resolve dependents_from get_dependents
program = tt

extract_dependencies-app : extract_dependencies app ≡ "db" ∷ "prod" ∷ []
unfolding program
extract_dependencies-app = refl

-- The application is listed first and stands behind its cluster; "db" is not in the batch.
resolve-ordered : resolve as_listed (batch_of cluster) ≡ resolved (cluster ∷ app ∷ [])
unfolding program
resolve-ordered = refl

resolve-looped : resolve as_listed (batch_of looped) ≡ circular "prod" "app"
unfolding program
resolve-looped = refl

get_dependents-prod : get_dependents as_listed (batch_of cluster) "prod" ≡ "app" ∷ []
unfolding program
get_dependents-prod = refl

cluster-Distinct : Distinct (keys (batch_of cluster).resources)
unfolding program
cluster-Distinct = (refl, (refl, tt))

resolve-AnswersBatch_example :
    AnswersBatch (batch_of cluster) (resolve as_listed (batch_of cluster))
resolve-AnswersBatch_example =
    resolve-AnswersBatch as_listed as_listed-VisitsAll (batch_of cluster) cluster-Distinct

abbrev plugin : Plugin
plugin = record {
  validate = λ spec. none;
  plan = λ spec. none;
  apply_spec = λ spec. applied "ready";
  remove = λ name. none;
}

abbrev world : Env
world = record {
  plugin = λ kind provider. some plugin;
  reads = λ name. true;
  saves = λ name. true;
  deletes = λ name. true;
}

-- The application stands on its cluster; both have a provider.
abbrev batch : List Resource
batch =
    record {
      name = "app";
      kind = "App";
      spec = ("provider", text "k8s") ∷ ("clusterRef", text "prod") ∷ [];
    }
    ∷ record { name = "prod"; kind = "Cluster"; spec = ("provider", text "aws") ∷ [] }
    ∷ []

abbrev encode : Map Value → String
encode spec = "{}"

abbrev can_read : String → Bool
can_read name = true

abbrev nothing : Store
nothing = []

abbrev built : Store
built = (apply as_listed world batch []).1

rollback : Unit {0}
unfolding program delete provider_of get save run_plugin apply_resource delete_resource apply_each
    add_resources resolve_dependencies apply planned plan_resources create_rollback_plan restore
    rollback_resource rollback_each execute_rollback
rollback = tt

batch-applied : keys built ≡ "prod" ∷ "app" ∷ []
unfolding rollback
batch-applied = refl

batch-rolled_back :
    execute_rollback world (create_rollback_plan encode can_read [] "job" batch []) "job" built
    ≡ (done, [])
unfolding rollback
batch-rolled_back = refl

-- A resource that was there before is not restored.
batch-not_restored :
    (execute_rollback world
      (create_rollback_plan encode can_read built "job" batch [])
      "job"
      built).0
    ≡ failed "prod" (missing_provider "prod")
unfolding rollback
batch-not_restored = refl

-- Where the reads fail as the plan is made, what was there before is deleted.
batch-lost :
    execute_rollback world
      (create_rollback_plan encode (λ name. false) built "job" batch [])
      "job"
      built
    ≡ (done, [])
unfolding rollback
batch-lost = refl

execute_rollback-deletes_example :
    All (λ r. (get can_read r.name nothing ≡ none) × (has r.name nothing ≡ false)) batch
execute_rollback-deletes_example =
    execute_rollback-deletes world encode can_read nothing "job" batch [] built nothing
      batch-rolled_back
