-- ===== src/Rbac/Orgs/Decisions.antt =====
-- internal/rbac/org_rbac.go: what `CheckOrganizationPermission` decides.
use platformfoundry_ce.Base.{
  String, ◌≡◌, inl, inr, subst, true, false, none, some, List, [], ◌∷◌, ◌==◌, contains, ◌∈◌, arith,
  eq_iff, eq_refl, Bool-cases, Option-cases,
}
use platformfoundry_ce.Base.Maps.{lookup}
use platformfoundry_ce.Rbac.Access.{
  User, Rbac, log_permission_check, Verdict, granted, denied, unknown_user, role_admin,
}
use platformfoundry_ce.Rbac.Orgs.{
  org_roles_of, has_org_permission, granting_org_role, check_organization_permission,
}

-- Each outcome of a check, with the entry of the log that it leaves.
pub data OrgOutcome (r : Rbac) (username organization resource_type action : String)
    : Verdict × Rbac → Type 0 where
  by_admin :
      (user : User)
      → lookup username r.users ≡ some user
      → "admin" ∈ user.roles
      → OrgOutcome r username organization resource_type action
          (granted, log_permission_check r username "admin" resource_type organization action true)
  by_role :
      (user : User) (role : String)
      → lookup username r.users ≡ some user
      → contains user.roles "admin" ≡ false
      → role ∈ org_roles_of user organization
      → has_org_permission role resource_type action ≡ true
      → OrgOutcome r username organization resource_type action
          (granted, log_permission_check r username role resource_type organization action true)
  by_none :
      (user : User)
      → lookup username r.users ≡ some user
      → contains user.roles "admin" ≡ false
      → ((role : String)
          → role ∈ org_roles_of user organization
          → has_org_permission role resource_type action ≡ false)
      → OrgOutcome r username organization resource_type action
          (denied, log_permission_check r username "" resource_type organization action false)
  no_user :
      lookup username r.users ≡ none
      → OrgOutcome r username organization resource_type action
          (unknown_user, log_permission_check r username "" resource_type organization action false)

granting_org_role-some :
    (roles : List String) (resource_type action : String) {role : String}
    → granting_org_role roles resource_type action ≡ some role
    → (role ∈ roles) × (has_org_permission role resource_type action ≡ true)
unfolding granting_org_role
granting_org_role-some [] resource_type action e = absurd (ground arith)
granting_org_role-some (r ∷ roles) resource_type action {role} e =
    elim (Bool-cases (has_org_permission r resource_type action)) [
      | inl may ↦
          let same : r ≡ role = ground arith in
          (
            ground (arith, eq_refl r),
            subst (λ x. has_org_permission x resource_type action ≡ true) same may,
          )
      | inr may_not ↦
          let later : (role ∈ roles) × (has_org_permission role resource_type action ≡ true) =
            granting_org_role-some roles resource_type action (ground arith) in
          (ground (arith, later.0), later.1)
    ]

granting_org_role-none :
    (roles : List String) (resource_type action : String)
    → granting_org_role roles resource_type action ≡ none
    → (role : String) → role ∈ roles
    → has_org_permission role resource_type action ≡ false
unfolding granting_org_role
granting_org_role-none [] resource_type action e role there = cc
granting_org_role-none (r ∷ roles) resource_type action e role there =
    elim (Bool-cases (r == role)) [
      | inl same ↦ ground (arith, eq_iff r role)
      | inr apart ↦
          granting_org_role-none roles resource_type action (ground arith) role (ground arith)
    ]

module _ (r : Rbac) (username organization resource_type action : String) where
  for_user :
      (user : User)
      → lookup username r.users ≡ some user
      → OrgOutcome r username organization resource_type action
          (check_organization_permission r username organization resource_type action)
  unfolding check_organization_permission
  for_user user e = elim (Bool-cases (contains user.roles role_admin)) [
    | inl admin ↦ rw (e, admin, check_organization_permission) (by_admin user e admin)
    | inr plain ↦
        (elim (Option-cases
          (granting_org_role (org_roles_of user organization) resource_type action)) [
            | inl absent ↦
                rw (e, plain, absent, check_organization_permission)
                  (by_none user e plain (
                    granting_org_role-none (org_roles_of user organization) resource_type action
                      absent))
            | inr (role, found) ↦
                let (there, may) =
                  granting_org_role-some (org_roles_of user organization) resource_type action
                    found in
                rw (e, plain, found, check_organization_permission)
                  (by_role user role e plain there may)
          ])
  ]

  -- Every check in an organisation ends in one of four ways: it grants the action to a global admin;
  -- it grants it for a role that the user has in this very organisation and that has the permission;
  -- it denies it to a user who is no admin and has no such role there; or it does not know the user.
  -- It adds one entry to the log, with the role that it names, and changes nothing else.
  pub check_organization_permission-OrgOutcome :
      OrgOutcome r username organization resource_type action
        (check_organization_permission r username organization resource_type action)
  unfolding check_organization_permission
  check_organization_permission-OrgOutcome = elim (Option-cases (lookup username r.users)) [
    | inl e ↦ rw (e, check_organization_permission) (no_user e)
    | inr (user, e) ↦ for_user user e
  ]
