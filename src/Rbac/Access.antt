-- ===== src/Rbac/Access.antt =====
-- internal/rbac/rbac.go: users, roles and the permission check. Times and the audit file are left
-- out. A call of `CheckPermission` is one step here; between its locks the code lets other calls
-- in. No map of organisation roles and the empty one are read alike, and are one here.
use platformfoundry_ce.Base.{
  String, Bool, true, false, ◌&&◌, ◌||◌, Option, none, some, List, [], ◌∷◌, ◌++◌, if◌then◌else◌,
  ◌==◌, contains,
}
use platformfoundry_ce.Base.Maps.{Map, lookup, insert, delete, has}

-- Roles, actions and resource types are strings in the code too.
abbrev pub role_admin : String
role_admin = "admin"

abbrev pub role_operator : String
role_operator = "operator"

abbrev pub role_viewer : String
role_viewer = "viewer"

abbrev pub Permissions : Type 0
Permissions = Map (Map (List String))

pub record User : Type 0 where
  pub username : String
  pub email : String
  pub roles : List String
  pub organization_roles : Map (List String)

-- The reason of a denial is a text of the other fields; it is left out.
pub record PermissionCheck : Type 0 where
  pub username : String
  pub role : String
  pub resource_type : String
  pub resource_name : String
  pub action : String
  pub allowed : Bool

pub record Rbac : Type 0 where
  pub permissions : Permissions
  pub users : Map User
  pub permission_logs : List PermissionCheck

pub data Error : Type 0 where
  user_not_found invalid_role : Error

pub data Result {ℓ} (A : Type ℓ) : Type ℓ where
  err : Error → Result A
  ok : A → Result A

-- The loops of `initializeDefaultPermissions`.
unfoldable pub grant_each : List String → List String → Map (List String) → Map (List String)
grant_each [] actions granted = granted
grant_each (resource ∷ resources) actions granted =
    grant_each resources actions (insert resource actions granted)

abbrev pub operator_resources : List String
operator_resources =
    "Platform" ∷ "Infrastructure" ∷ "Orchestrator" ∷ "Observability" ∷ "DevEx" ∷ "Pipeline" ∷ "Mesh"
    ∷ "Security" ∷ "Compliance" ∷ "Job" ∷ "Plugin" ∷ "Service" ∷ "ServiceTemplate" ∷ "ServiceAction"
    ∷ "ServiceScorecard" ∷ []

abbrev pub admin_resources : List String
admin_resources =
    "Platform" ∷ "Infrastructure" ∷ "Orchestrator" ∷ "Observability" ∷ "DevEx" ∷ "Pipeline" ∷ "Mesh"
    ∷ "Security" ∷ "Compliance" ∷ "Job" ∷ "Plugin" ∷ "RBAC" ∷ "Organization" ∷ "Environment"
    ∷ "Service" ∷ "ServiceTemplate" ∷ "ServiceAction" ∷ "ServiceScorecard" ∷ []

abbrev pub viewer_resources : List String
viewer_resources =
    "Platform" ∷ "Infrastructure" ∷ "Orchestrator" ∷ "Observability" ∷ "DevEx" ∷ "Pipeline" ∷ "Mesh"
    ∷ "Security" ∷ "Compliance" ∷ "Job" ∷ "Plugin" ∷ "RBAC" ∷ "Service" ∷ "ServiceTemplate"
    ∷ "ServiceAction" ∷ "ServiceScorecard" ∷ []

-- `adminActions` and `operatorActions`.
abbrev pub all_actions : List String
all_actions = "create" ∷ "read" ∷ "update" ∷ "delete" ∷ "list" ∷ "validate" ∷ "plan" ∷ []

abbrev pub viewer_actions : List String
viewer_actions = "read" ∷ "list" ∷ "validate" ∷ "plan" ∷ []

unfoldable pub default_permissions : Permissions
default_permissions = insert role_viewer (grant_each viewer_resources viewer_actions []) (
    insert role_operator
      (insert "RBAC" ("read" ∷ "list" ∷ []) (grant_each operator_resources all_actions []))
      (insert role_admin (grant_each admin_resources all_actions []) []))

unfoldable pub new_rbac : Rbac
new_rbac = record { permissions = default_permissions; users = []; permission_logs = [] }

unfoldable pub is_valid_role : String → Bool
is_valid_role role =
    role == "admin"
    || role == "operator"
    || role == "viewer"
    || role == "org-admin"
    || role == "platform-engineer"
    || role == "developer"

-- The loop that validates the roles.
unfoldable pub are_valid_roles : List String → Bool
are_valid_roles [] = true
are_valid_roles (role ∷ roles) = is_valid_role role && are_valid_roles roles

-- `AddUser`; it replaces a user of that name.
unfoldable pub add_user : Rbac → String → String → List String → Result Rbac
add_user r username email roles =
    if are_valid_roles roles
    then ok (record r {
      users =
          insert username
            (record { username = username; email = email; roles = roles; organization_roles = [] })
            r.users;
    })
    else err invalid_role

unfoldable pub update_user : Rbac → String → List String → Result Rbac
update_user r username roles = elim (lookup username r.users) [
  | none ↦ err user_not_found
  | some user ↦
      if are_valid_roles roles
      then ok (record r { users = insert username (record user { roles = roles }) r.users })
      else err invalid_role
]

unfoldable pub delete_user : Rbac → String → Result Rbac
delete_user r username =
    if has username r.users
    then ok (record r { users = delete username r.users })
    else err user_not_found

unfoldable pub has_permission : Permissions → String → String → String → Bool
has_permission permissions role resource_type action = elim (lookup role permissions) [
  | none ↦ false
  | some granted ↦ (elim (lookup resource_type granted) [
    | none ↦ false
    | some actions ↦ contains actions action
  ])
]

unfoldable pub log_permission_check :
    Rbac → String → String → String → String → String → Bool → Rbac
log_permission_check r username role resource_type resource_name action allowed = record r {
  permission_logs =
      r.permission_logs
      ++ record {
        username = username;
        role = role;
        resource_type = resource_type;
        resource_name = resource_name;
        action = action;
        allowed = allowed;
      }
        ∷ [];
}

-- The loop over the user's roles: the first that has the permission.
unfoldable pub granting_role : Permissions → List String → String → String → Option String
granting_role permissions [] resource_type action = none
granting_role permissions (role ∷ roles) resource_type action =
    if has_permission permissions role resource_type action
    then some role
    else granting_role permissions roles resource_type action

-- How `CheckPermission` ends; the last is the panic of `user.Roles[0]`.
pub data Verdict : Type 0 where
  granted denied unknown_user index_out_of_range : Verdict

unfoldable pub check_permission : Rbac → String → String → String → String → Verdict × Rbac
check_permission r username resource_type resource_name action = elim (lookup username r.users) [
  | none ↦
      (unknown_user, log_permission_check r username "" resource_type resource_name action false)
  | some user ↦ (elim (granting_role r.permissions user.roles resource_type action) [
    | some role ↦
        (granted, log_permission_check r username role resource_type resource_name action true)
    | none ↦ (elim user.roles [
      | [] ↦ (index_out_of_range, r)
      | first ∷ rest ↦
          (denied, log_permission_check r username first resource_type resource_name action false)
    ])
  ])
]

unfoldable pub logs_for_user : String → List PermissionCheck → List PermissionCheck
logs_for_user username [] = []
logs_for_user username (check ∷ checks) =
    let rest = logs_for_user username checks in
    if check.username == username then check ∷ rest else rest

unfoldable pub clear_permission_logs : Rbac → Rbac
clear_permission_logs r = record r { permission_logs = [] }

unfoldable pub set_role_permissions : Rbac → String → String → List String → Result Rbac
set_role_permissions r role resource_type actions =
    if is_valid_role role
    then ok (record r {
      permissions =
          insert role
            (insert resource_type actions
              (elim (lookup role r.permissions) [ none ↦ [] | some of_role ↦ of_role ]))
            r.permissions;
    })
    else err invalid_role
