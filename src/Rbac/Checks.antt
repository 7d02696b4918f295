-- ===== src/Rbac/Checks.antt =====
-- internal/rbac/rbac.go: what `CheckPermission` decides.
use platformfoundry_ce.Base.{
  String, ◌≡◌, inl, inr, refl, subst, true, false, none, some, List, [], ◌∷◌, ◌==◌, ◌∈◌, arith,
  eq_iff, eq_refl, Bool-cases, Option-cases, List-cases,
}
use platformfoundry_ce.Base.Maps.{lookup, insert, lookup-insert}
use platformfoundry_ce.Rbac.Access.{
  Permissions, User, Rbac, ok, add_user, are_valid_roles, has_permission, log_permission_check,
  granting_role, Verdict, granted, denied, unknown_user, index_out_of_range, check_permission,
}

-- Each outcome of a check with what it goes with. All but the panic leave one entry in the log.
pub data Outcome (r : Rbac) (username resource_type resource_name action : String)
    : Verdict × Rbac → Type 0 where
  is_granted :
      (user : User) (role : String)
      → lookup username r.users ≡ some user
      → role ∈ user.roles
      → has_permission r.permissions role resource_type action ≡ true
      → Outcome r username resource_type resource_name action
          (granted, log_permission_check r username role resource_type resource_name action true)
  is_denied :
      (user : User) (first : String) (rest : List String)
      → lookup username r.users ≡ some user
      → user.roles ≡ first ∷ rest
      → ((role : String)
          → role ∈ user.roles
          → has_permission r.permissions role resource_type action ≡ false)
      → Outcome r username resource_type resource_name action
          (denied, log_permission_check r username first resource_type resource_name action false)
  is_unknown :
      lookup username r.users ≡ none
      → Outcome r username resource_type resource_name action (
        unknown_user,
        log_permission_check r username "" resource_type resource_name action false,
      )
  panics :
      (user : User)
      → lookup username r.users ≡ some user
      → user.roles ≡ []
      → Outcome r username resource_type resource_name action (index_out_of_range, r)

granting_role-some :
    (permissions : Permissions) (roles : List String) (resource_type action : String)
    {role : String}
    → granting_role permissions roles resource_type action ≡ some role
    → (role ∈ roles) × (has_permission permissions role resource_type action ≡ true)
unfolding granting_role
granting_role-some permissions [] resource_type action e = absurd (ground arith)
granting_role-some permissions (r ∷ roles) resource_type action {role} e =
    elim (Bool-cases (has_permission permissions r resource_type action)) [
      | inl may ↦
          let same : r ≡ role = ground arith in
          (
            ground (arith, eq_refl r),
            subst (λ x. has_permission permissions x resource_type action ≡ true) same may,
          )
      | inr may_not ↦
          let later : (role ∈ roles)
              × (has_permission permissions role resource_type action ≡ true) =
            granting_role-some permissions roles resource_type action (ground arith) in
          (ground (arith, later.0), later.1)
    ]

granting_role-none :
    (permissions : Permissions) (roles : List String) (resource_type action : String)
    → granting_role permissions roles resource_type action ≡ none
    → (role : String) → role ∈ roles
    → has_permission permissions role resource_type action ≡ false
unfolding granting_role
granting_role-none permissions [] resource_type action e role there = cc
granting_role-none permissions (r ∷ roles) resource_type action e role there =
    elim (Bool-cases (r == role)) [
      | inl same ↦ ground (arith, eq_iff r role)
      | inr apart ↦
          granting_role-none permissions roles resource_type action (ground arith) role
            (ground arith)
    ]

module _ (r : Rbac) (username resource_type resource_name action : String) where
  checked :
      (user : User)
      → lookup username r.users ≡ some user
      → Outcome r username resource_type resource_name action
          (check_permission r username resource_type resource_name action)
  unfolding check_permission
  checked user e =
      elim (Option-cases (granting_role r.permissions user.roles resource_type action)) [
        | inr (role, found) ↦
            let (there, may) =
              granting_role-some r.permissions user.roles resource_type action found in
            rw (e, found, check_permission) (is_granted user role e there may)
        | inl absent ↦
            let may_not = granting_role-none r.permissions user.roles resource_type action absent in
            elim (List-cases user.roles) [
              | inl empty ↦ rw (e, absent, empty, check_permission) (panics user e empty)
              | inr (first, rest, roles) ↦
                  rw (e, absent, roles, check_permission)
                    (is_denied user first rest e roles may_not)
            ]
      ]

  -- Every call of the check ends in one of four ways: it grants the action, for a role of the user
  -- that has the permission; it denies it, for a user with a role and none that has the permission;
  -- it does not know the user; or it panics, for a user with no role. In the first three it adds
  -- one entry to the log, with the role that it names, and changes nothing else.
  pub check_permission-Outcome :
      Outcome r username resource_type resource_name action
        (check_permission r username resource_type resource_name action)
  unfolding check_permission
  check_permission-Outcome = elim (Option-cases (lookup username r.users)) [
    | inl e ↦ rw (e, check_permission) (is_unknown e)
    | inr (user, e) ↦ checked user e
  ]

-- `AddUser` accepts a user with no role, and every check of that user then panics.
pub add_user_no_roles :
    (r : Rbac) (username email : String)
    → (r' : Rbac) × (add_user r username email [] ≡ ok r')
      × ((resource_type resource_name action : String)
          → (check_permission r' username resource_type resource_name action).0
            ≡ index_out_of_range)
unfolding add_user are_valid_roles check_permission granting_role
add_user_no_roles r username email =
    let user : User = record {
      username = username;
      email = email;
      roles = [];
      organization_roles = [];
    } in
    let r' : Rbac = record r { users = insert username user r.users } in
    let found : lookup username (insert username user r.users) ≡ some user =
      ground (arith, lookup-insert username username user r.users, eq_refl username) in
    (r', refl, λ resource_type resource_name action. rw (found, check_permission) refl)
