-- ===== src/Orchestrator/Apply.antt =====
-- internal/orchestrator/orchestrator.go: Apply of a batch in the order of its dependencies, and
-- Delete. Plugins are code behind an interface: what they answer is an argument, and so is whether
-- the backend of the store takes a read or a write. The store of internal/store/store.go is the map
-- of what was saved.
use platformfoundry_ce.Base.{String, Bool, Option, none, some, List, [], ◌∷◌, if◌then◌else◌}
use platformfoundry_ce.Base.Maps.{Map, lookup, insert, delete, RangeOrder}
use platformfoundry_ce.Orchestrator.Dependency.{
  Value, text, items, other, Resource, DependencyResolver, new_dependency_resolver, add_resource,
  Resolved, resolved, circular, resolve,
}

-- An error is none where the call succeeds; Apply's answer is an error or a status.
pub data Applied : Type 0 where
  refused : String → Applied
  applied : String → Applied

pub record Plugin : Type 0 where
  pub validate : Map Value → Option String
  pub plan : Map Value → Option String
  pub apply_spec : Map Value → Applied
  pub remove : String → Option String

pub record Env : Type 0 where
  pub plugin : String → String → Option Plugin
  pub reads : String → Bool
  pub saves : String → Bool
  pub deletes : String → Bool

pub record Stored : Type 0 where
  pub kind : String
  pub provider : String
  pub spec : Map Value
  pub status : String

abbrev pub Store : Type 0
Store = Map Stored

pub data Failure : Type 0 where
  missing_provider no_plugin save_failed not_found no_previous_state : String → Failure
  validation_failed planning_failed apply_failed delete_failed : String → Failure

-- `spec["provider"].(string)`
unfoldable pub provider_of : Map Value → Option String
provider_of spec = elim (lookup "provider" spec) [
  | none ↦ none
  | some (text provider) ↦ some provider
  | some (items list) ↦ none
  | some other ↦ none
]

-- `Get` of the store. Both a name that is not in it and a read that fails are an error, and what
-- calls it does not tell the two apart.
unfoldable pub get : (String → Bool) → String → Store → Option Stored
get reads name store = if reads name then lookup name store else none

-- `Save` of the store: the provider is written into the specification.
unfoldable pub save : Env → Resource → String → String → Store → Option Failure × Store
save env resource provider status store =
    if env.saves resource.name
    then (
      none,
      insert resource.name
          (record {
            kind = resource.kind;
            provider = provider;
            spec = insert "provider" (text provider) resource.spec;
            status = status;
          })
          store,
    )
    else (some (save_failed resource.name), store)

unfoldable pub run_plugin : Env → Resource → String → Plugin → Store → Option Failure × Store
run_plugin env resource provider p store = elim (p.validate resource.spec) [
  | some e ↦ (some (validation_failed e), store)
  | none ↦ elim (p.plan resource.spec) [
    | some e ↦ (some (planning_failed e), store)
    | none ↦ elim (p.apply_spec resource.spec) [
      | refused e ↦ (some (apply_failed e), store)
      | applied status ↦ save env resource provider status store
    ]
  ]
]

unfoldable pub apply_resource : Env → Resource → Store → Option Failure × Store
apply_resource env resource store = elim (provider_of resource.spec) [
  | none ↦ (some (missing_provider resource.name), store)
  | some provider ↦ elim (env.plugin resource.kind provider) [
    | none ↦ (some (no_plugin provider), store)
    | some p ↦ run_plugin env resource provider p store
  ]
]

unfoldable pub delete_resource : Env → String → Store → Option Failure × Store
delete_resource env name store = elim (get env.reads name store) [
  | none ↦ (some (not_found name), store)
  | some stored ↦ elim (env.plugin stored.kind stored.provider) [
    | none ↦ (some (no_plugin stored.provider), store)
    | some p ↦ elim (p.remove name) [
      | some e ↦ (some (delete_failed e), store)
      | none ↦
          if env.deletes name then (none, delete name store) else (some (delete_failed name), store)
    ]
  ]
]

-- How `Apply` ends: done, an error of the order, or the first resource that failed.
pub data Ended : Type 0 where
  done : Ended
  not_ordered : Resolved → Ended
  failed : String → Failure → Ended

-- The loop of `Apply` over the ordered resources; it stops at the first failure.
unfoldable pub apply_each : Env → List Resource → Store → Ended × Store
apply_each env [] store = (done, store)
apply_each env (r ∷ rs) store = elim (apply_resource env r store).0 [
  | none ↦ apply_each env rs (apply_resource env r store).1
  | some e ↦ (failed r.name e, (apply_resource env r store).1)
]

unfoldable pub add_resources : List Resource → DependencyResolver → DependencyResolver
add_resources [] dr = dr
add_resources (r ∷ rs) dr = add_resources rs (add_resource r dr)

-- `resolveDependencies`
unfoldable pub resolve_dependencies : RangeOrder → List Resource → Resolved
resolve_dependencies range resources =
    resolve range (add_resources resources new_dependency_resolver)

-- `Apply`, of values that are resources.
unfoldable pub apply : RangeOrder → Env → List Resource → Store → Ended × Store
apply range env resources store = elim (resolve_dependencies range resources) [
  | resolved ordered ↦ apply_each env ordered store
  | circular a b ↦ (not_ordered (circular a b), store)
  | Resolved.nil_node ↦ (not_ordered Resolved.nil_node, store)
  | Resolved.out_of_fuel ↦ (not_ordered Resolved.out_of_fuel, store)
]
