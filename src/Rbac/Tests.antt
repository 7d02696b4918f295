-- ===== src/Rbac/Tests.antt =====
-- A developer who may validate platforms, for internal/rbac/rbac.go.
use platformfoundry_ce.Base.{
  ◌≡◌, List, refl, true, [], ◌∷◌, String, if◌then◌else◌, ◌==◌, ◌&&◌, contains, ◌∈◌,
}
use platformfoundry_ce.Base.Maps.{lookup, insert, delete}
use platformfoundry_ce.Rbac.Access.{
  Rbac, new_rbac, default_permissions, ok, add_user, are_valid_roles, is_valid_role, has_permission,
  check_permission, index_out_of_range, granted, set_role_permissions, grant_each, role_viewer,
  role_operator, role_admin, viewer_actions,
}
use platformfoundry_ce.Rbac.Checks.{Outcome, check_permission-Outcome, add_user_no_roles}
use platformfoundry_ce.Rbac.Orgs.{
  check_organization_permission, add_organization_role, remove_organization_role, org_roles_of,
  without, is_valid_org_role, granting_org_role, has_org_permission, org_role_permissions,
}
use platformfoundry_ce.Rbac.Orgs.Members.{Op, enrol, join, leave, run, replay, Refines, apply, kept}
use platformfoundry_ce.Rbac.Orgs.Refinement.{nothing, run-Refines_new}
use platformfoundry_ce.Rbac.Orgs.Decisions.{OrgOutcome, check_organization_permission-OrgOutcome}
use platformfoundry_ce.Rbac.Grants.{has_permission-set_role_permissions, new_rbac-roles}

program : Unit {0}
unfolding lookup insert new_rbac default_permissions grant_each add_user are_valid_roles
    is_valid_role set_role_permissions has_permission
program = tt

abbrev bare : Rbac
bare = record {
  permissions = [];
  users =
      (
        "ada",
        record {
          username = "ada";
          email = "ada@x";
          roles = "viewer" ∷ [];
          organization_roles = [];
        },
      )
      ∷ [];
  permission_logs = [];
}

abbrev extended : Rbac
extended = record bare { permissions = ("viewer", ("Job", "plan" ∷ []) ∷ []) ∷ [] }

set_bare : set_role_permissions bare "viewer" "Job" ("plan" ∷ []) ≡ ok extended
unfolding program
set_bare = refl

has_permission-set_role_permissions_run :
    has_permission extended.permissions "viewer" "Job" "plan" ≡ (
      if "viewer" == "viewer" && "Job" == "Job"
      then contains ("plan" ∷ []) "plan"
      else has_permission bare.permissions "viewer" "Job" "plan")
has_permission-set_role_permissions_run =
    has_permission-set_role_permissions bare extended "viewer" "Job" ("plan" ∷ []) set_bare "viewer"
      "Job" "plan"

check_permission-Outcome_example :
    Outcome extended "ada" "Job" "nightly" "plan"
      (check_permission extended "ada" "Job" "nightly" "plan")
check_permission-Outcome_example = check_permission-Outcome extended "ada" "Job" "nightly" "plan"

new_rbac-roles_run :
    (has_permission new_rbac.permissions role_viewer "RBAC" "plan" ≡ true → "plan" ∈ viewer_actions)
    × (has_permission new_rbac.permissions role_operator "RBAC" "plan" ≡ true
        → has_permission new_rbac.permissions role_admin "RBAC" "plan" ≡ true)
    × (has_permission new_rbac.permissions role_operator "RBAC" "plan" ≡ true
        → "plan" ∈ "read" ∷ "list" ∷ [])
new_rbac-roles_run = new_rbac-roles "RBAC" "plan"

add_user_no_roles_example :
    (r' : Rbac) × (add_user extended "bob" "bob@x" [] ≡ ok r')
    × ((resource_type resource_name action : String)
        → (check_permission r' "bob" resource_type resource_name action).0 ≡ index_out_of_range)
add_user_no_roles_example = add_user_no_roles extended "bob" "bob@x"

abbrev calls : List Op
calls =
    enrol "eve" "eve@x" ("viewer" ∷ [])
    ∷ join "eve" "acme" "developer"
    ∷ join "eve" "acme" "org-admin"
    ∷ join "mallory" "acme" "org-admin"
    ∷ leave "eve" "acme" "developer"
    ∷ []

run-Refines_new_example : Refines (run calls new_rbac) (replay calls nothing)
run-Refines_new_example = run-Refines_new calls

check_organization_permission-OrgOutcome_example :
    OrgOutcome
      (run calls new_rbac)
      "eve"
      "acme"
      "Platform"
      "create"
      (check_organization_permission (run calls new_rbac) "eve" "acme" "Platform" "create")
check_organization_permission-OrgOutcome_example =
    check_organization_permission-OrgOutcome (run calls new_rbac) "eve" "acme" "Platform" "create"

eve_may_create :
    (check_organization_permission (run calls new_rbac) "eve" "acme" "Platform" "create").0
    ≡ granted
unfolding program delete run apply kept add_organization_role remove_organization_role org_roles_of
    without is_valid_org_role check_organization_permission granting_org_role has_org_permission
    org_role_permissions
eve_may_create = refl
