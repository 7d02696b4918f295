-- ===== src/Rbac/Orgs.antt =====
-- internal/rbac/org_rbac.go: the roles of users in organisations, and the check of permissions
-- there. `CheckOrganizationPermission` is one step here, as `CheckPermission` is in `Access`.
pub mod Members
pub mod Refinement
pub mod Decisions
use platformfoundry_ce.Base.{
  String, Bool, true, false, ◌&&◌, ◌||◌, not, Option, none, some, List, [], ◌∷◌, ◌++◌,
  if◌then◌else◌, ◌==◌, contains,
}
use platformfoundry_ce.Base.Maps.{Map, lookup, insert, delete, has, keys, RangeOrder}
use platformfoundry_ce.Rbac.Access.{
  User, Rbac, Error, user_not_found, invalid_role, Result, ok, err, role_admin, grant_each,
  all_actions, viewer_actions, log_permission_check, Verdict, granted, denied, unknown_user,
}

unfoldable pub is_valid_org_role : String → Bool
is_valid_org_role role = role == "org-admin" || role == "platform-engineer" || role == "developer"

-- `user.OrganizationRoles[organization]`, empty on a missing key.
unfoldable pub org_roles_of : User → String → List String
org_roles_of user organization = elim (lookup organization user.organization_roles) [
  | none ↦ []
  | some roles ↦ roles
]

abbrev pub put_user : Rbac → String → User → Rbac
put_user r username user = record r { users = insert username user r.users }

unfoldable pub add_organization_role : Rbac → String → String → String → Result Rbac
add_organization_role r username organization role = elim (lookup username r.users) [
  | none ↦ err user_not_found
  | some user ↦
      if not (is_valid_org_role role)
      then err invalid_role
      else (let roles = org_roles_of user organization in
          if contains roles role
          then ok r
          else ok (
              put_user r username (record user {
                organization_roles =
                    insert organization (roles ++ role ∷ []) user.organization_roles;
              })))
]

-- The loop that keeps the other roles.
unfoldable pub without : String → List String → List String
without role [] = []
without role (r ∷ rs) = let rest = without role rs in if r == role then rest else r ∷ rest

abbrev pub put_roles : String → List String → Map (List String) → Map (List String)
put_roles organization [] all = delete organization all
put_roles organization (r ∷ rs) all = insert organization (r ∷ rs) all

unfoldable pub remove_organization_role : Rbac → String → String → String → Result Rbac
remove_organization_role r username organization role = elim (lookup username r.users) [
  | none ↦ err user_not_found
  | some user ↦ ok (
      put_user r username (record user {
        organization_roles =
            put_roles organization (without role (org_roles_of user organization))
              user.organization_roles;
      }))
]

abbrev pub managed_resources : List String
managed_resources =
    "Platform" ∷ "Infrastructure" ∷ "Orchestrator" ∷ "Observability" ∷ "DevEx" ∷ "Pipeline" ∷ "Mesh"
    ∷ "Security" ∷ "Compliance" ∷ "Environment" ∷ "Service" ∷ "ServiceTemplate" ∷ "ServiceAction"
    ∷ "ServiceScorecard" ∷ []

abbrev pub read_only_resources : List String
read_only_resources =
    "Platform" ∷ "Infrastructure" ∷ "Orchestrator" ∷ "Observability" ∷ "Environment"
    ∷ "Organization" ∷ []

unfoldable pub developer_permissions : Map (List String)
developer_permissions = insert "ServiceScorecard" ("read" ∷ "list" ∷ []) (
    insert "ServiceTemplate" ("read" ∷ "list" ∷ []) (
      insert "ServiceAction" ("create" ∷ "read" ∷ "list" ∷ []) (
        insert "Service" ("create" ∷ "read" ∷ "update" ∷ "list" ∷ "validate" ∷ "plan" ∷ [])
          (insert "DevEx" all_actions (grant_each read_only_resources viewer_actions [])))))

-- `getOrgRolePermissions`
unfoldable pub org_role_permissions : String → Map (List String)
org_role_permissions role =
    if role == "org-admin"
    then insert "Organization" ("read" ∷ "update" ∷ "list" ∷ [])
        (grant_each managed_resources all_actions [])
    else if role == "platform-engineer"
    then insert "Organization" ("read" ∷ "list" ∷ []) (grant_each managed_resources all_actions [])
    else if role == "developer"
    then developer_permissions
    else []

unfoldable pub has_org_permission : String → String → String → Bool
has_org_permission role resource_type action =
    elim (lookup resource_type (org_role_permissions role)) [
      | none ↦ false
      | some actions ↦ contains actions action
    ]

-- The loop over the user's roles in the organisation.
unfoldable pub granting_org_role : List String → String → String → Option String
granting_org_role [] resource_type action = none
granting_org_role (role ∷ roles) resource_type action =
    if has_org_permission role resource_type action
    then some role
    else granting_org_role roles resource_type action

unfoldable pub check_organization_permission :
    Rbac → String → String → String → String → Verdict × Rbac
check_organization_permission r username organization resource_type action =
    elim (lookup username r.users) [
      | none ↦
          (unknown_user, log_permission_check r username "" resource_type organization action false)
      | some user ↦
          if contains user.roles role_admin
          then (
            granted,
            log_permission_check r username role_admin resource_type organization action true,
          )
          else (elim (granting_org_role (org_roles_of user organization) resource_type action) [
            | some role ↦ (
              granted,
              log_permission_check r username role resource_type organization action true,
            )
            | none ↦
                (denied, log_permission_check r username "" resource_type organization action false)
          ])
    ]

unfoldable pub user_organizations : RangeOrder → Rbac → String → List String
user_organizations range r username = elim (lookup username r.users) [
  | none ↦ []
  | some user ↦ range 0 (keys user.organization_roles)
]

pub record OrgRoleBinding : Type 0 where
  pub username : String
  pub organization : String
  pub role : String

unfoldable pub bindings : String → String → List String → List OrgRoleBinding
bindings username organization [] = []
bindings username organization (role ∷ roles) =
    record { username = username; organization = organization; role = role }
    ∷ bindings username organization roles

-- The loop over the users under these names.
unfoldable pub members_from : Rbac → String → List String → List OrgRoleBinding
members_from r organization [] = []
members_from r organization (username ∷ rest) = elim (lookup username r.users) [
  | none ↦ members_from r organization rest
  | some user ↦
      bindings username organization (org_roles_of user organization)
      ++ members_from r organization rest
]

unfoldable pub organization_members : RangeOrder → Rbac → String → List OrgRoleBinding
organization_members range r organization = members_from r organization (range 0 (keys r.users))

unfoldable pub user_roles_in_organization : Rbac → String → String → List String
user_roles_in_organization r username organization = elim (lookup username r.users) [
  | none ↦ []
  | some user ↦
      if contains user.roles role_admin then role_admin ∷ [] else org_roles_of user organization
]
