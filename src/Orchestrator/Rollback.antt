-- ===== src/Orchestrator/Rollback.antt =====
-- internal/orchestrator/rollback.go: rollback plans and their execution.
use platformfoundry_ce.Base.{
  String, Bool, true, false, Option, none, some, List, [], ◌∷◌, if◌then◌else◌,
}
use mathlib.Core.List.{reverse}
use platformfoundry_ce.Base.Maps.{Map, lookup, insert, delete, has}
use platformfoundry_ce.Orchestrator.Dependency.{Value, text, Resource}
use platformfoundry_ce.Orchestrator.Apply.{
  Env, Store, get, Failure, no_previous_state, apply_resource, delete_resource,
}

pub data RollbackAction : Type 0 where
  removes restores noop : RollbackAction

pub record RollbackResource : Type 0 where
  pub name : String
  pub kind : String
  pub action : RollbackAction
  -- None for nil.
  pub previous_state : Option (Map Value)

pub record RollbackPlan : Type 0 where
  pub job_id : String
  pub resources : List RollbackResource

-- The manager's plans.
abbrev pub Plans : Type 0
Plans = Map RollbackPlan

-- How a rollback ends: no plan, done, or the first resource that failed.
pub data RolledBack : Type 0 where
  no_plan : String → RolledBack
  done : RolledBack
  failed : String → Failure → RolledBack

-- The entry of the loop for a resource. `encode` is the JSON text of a specification, and `reads`
-- says whether the store can be read when the plan is made.
unfoldable pub planned :
    (Map Value → String) → (String → Bool) → Store → Resource → RollbackResource
planned encode reads store resource = elim (get reads resource.name store) [
  | none ↦ record {
    name = resource.name;
    kind = resource.kind;
    action = removes;
    previous_state = none;
  }
  | some stored ↦ record {
    name = resource.name;
    kind = resource.kind;
    action = restores;
    previous_state = some (("spec", text (encode stored.spec)) ∷ []);
  }
]

unfoldable pub plan_resources :
    (Map Value → String) → (String → Bool) → Store → List Resource → List RollbackResource
plan_resources encode reads store [] = []
plan_resources encode reads store (resource ∷ resources) =
    planned encode reads store resource ∷ plan_resources encode reads store resources

unfoldable pub create_rollback_plan :
    (Map Value → String) → (String → Bool) → Store → String → List Resource → Plans → Plans
create_rollback_plan encode reads store job resources plans =
    insert job (record { job_id = job; resources = plan_resources encode reads store resources })
      plans

unfoldable pub restore : Env → RollbackResource → Store → Option Failure × Store
restore env r store = elim r.previous_state [
  | none ↦ (some (no_previous_state r.name), store)
  | some state ↦ apply_resource env (record { name = r.name; kind = r.kind; spec = state }) store
]

unfoldable pub rollback_resource : Env → RollbackResource → Store → Option Failure × Store
rollback_resource env r store = elim r.action [
  | removes ↦ delete_resource env r.name store
  | restores ↦ restore env r store
  | noop ↦ (none, store)
]

-- The loop over the resources, the last first; it stops at the first failure.
unfoldable pub rollback_each : Env → List RollbackResource → Store → RolledBack × Store
rollback_each env [] store = (done, store)
rollback_each env (r ∷ rs) store = elim (rollback_resource env r store).0 [
  | none ↦ rollback_each env rs (rollback_resource env r store).1
  | some e ↦ (failed r.name e, (rollback_resource env r store).1)
]

unfoldable pub execute_rollback : Env → Plans → String → Store → RolledBack × Store
execute_rollback env plans job store = elim (lookup job plans) [
  | none ↦ (no_plan job, store)
  | some plan ↦ rollback_each env (reverse plan.resources) store
]

unfoldable pub get_rollback_plan : Plans → String → Option RollbackPlan
get_rollback_plan plans job = lookup job plans

unfoldable pub delete_rollback_plan : String → Plans → Bool × Plans
delete_rollback_plan job plans = if has job plans then (true, delete job plans) else (false, plans)
