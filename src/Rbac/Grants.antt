-- ===== src/Rbac/Grants.antt =====
-- internal/rbac/rbac.go: which permissions the roles have.
use platformfoundry_ce.Base.{
  String, ◌≡◌, inl, inr, refl, sym, ap, subst, ◌∙◌, Bool, true, false, ◌&&◌, Option, none, some,
  List, [], ◌∷◌, if◌then◌else◌, ◌==◌, contains, ◌∈◌, arith, eq_iff, Bool-cases, Option-cases, All,
}
use platformfoundry_ce.Base.Maps.{Map, lookup, insert, lookup-insert}
use platformfoundry_ce.Rbac.Access.{
  Permissions, Rbac, ok, has_permission, grant_each, set_role_permissions, is_valid_role,
  default_permissions, new_rbac, role_admin, role_operator, role_viewer, admin_resources,
  operator_resources, viewer_resources, all_actions, viewer_actions,
}

lookup-grant_each :
    (resources actions : List String) (m : Map (List String)) (t : String)
    → lookup t (grant_each resources actions m)
      ≡ (if contains resources t then some actions else lookup t m)
unfolding grant_each
lookup-grant_each [] actions m t = refl
lookup-grant_each (r ∷ resources) actions m t =
    lookup-grant_each resources actions (insert r actions m) t
    ∙ ground (arith, lookup-insert r t actions m)

unfoldable granted_to : Permissions → String → Map (List String)
granted_to permissions role = elim (lookup role permissions) [ none ↦ [] | some of_role ↦ of_role ]

abbrev is_listed : Option (List String) → String → Bool
is_listed none a = false
is_listed (some actions) a = contains actions a

has_permission_lem :
    (permissions : Permissions) (role t a : String)
    → has_permission permissions role t a ≡ is_listed (lookup t (granted_to permissions role)) a
unfolding granted_to lookup
has_permission_lem permissions role t a = elim (Option-cases (lookup role permissions)) [
  | inl e ↦ unfold has_permission in rw (e, has_permission, granted_to) refl
  | inr (of_role, e) ↦ (elim (Option-cases (lookup t of_role)) [
    | inl absent ↦ unfold has_permission in rw (e, absent, has_permission, granted_to) refl
    | inr (actions, there) ↦ unfold has_permission in rw (e, there, has_permission, granted_to) refl
  ])
]

set_role_permissions_ok :
    (r r' : Rbac) (role resource_type : String) (actions : List String)
    → set_role_permissions r role resource_type actions ≡ ok r'
    → insert role (insert resource_type actions (granted_to r.permissions role)) r.permissions
      ≡ r'.permissions
unfolding set_role_permissions granted_to
set_role_permissions_ok r r' role resource_type actions e = elim (Bool-cases (is_valid_role role)) [
  | inl valid ↦ ground arith
  | inr invalid ↦ ground arith
]

granted_to-insert :
    (permissions : Permissions) (role : String) (fresh : Map (List String)) (role' : String)
    → granted_to (insert role fresh permissions) role'
      ≡ (if role == role' then fresh else granted_to permissions role')
unfolding granted_to
granted_to-insert permissions role fresh role' =
    ground (arith, lookup-insert role role' fresh permissions)

lookup-granted_to :
    (permissions : Permissions) (role t : String) (actions : List String) (role' t' : String)
    → lookup t' (
        granted_to (insert role (insert t actions (granted_to permissions role)) permissions) role')
      ≡ (if role == role' && t == t'
          then some actions
          else lookup t' (granted_to permissions role'))
lookup-granted_to permissions role t actions role' t' = elim (Bool-cases (role == role')) [
  | inr apart ↦ rw (granted_to-insert, apart) refl
  | inl same ↦
      rw (granted_to-insert, same)
        (ground
          (arith, eq_iff role role', lookup-insert t t' actions (granted_to permissions role)))
]

-- A successful call of `SetRolePermissions` gives the role exactly the actions given on the
-- resource type, and leaves the role's other resource types and all other roles as they were.
pub has_permission-set_role_permissions :
    (r r' : Rbac) (role resource_type : String) (actions : List String)
    → set_role_permissions r role resource_type actions ≡ ok r'
    → (role' resource_type' action : String)
    → has_permission r'.permissions role' resource_type' action ≡ (
        if role == role' && resource_type == resource_type'
        then contains actions action
        else has_permission r.permissions role' resource_type' action)
has_permission-set_role_permissions r r' role t actions e role' t' a =
    let now : has_permission r'.permissions role' t' a
        ≡ is_listed (lookup t' (granted_to r'.permissions role')) a =
      has_permission_lem r'.permissions role' t' a in
    let looked =
      ap (λ p. lookup t' (granted_to p role')) (sym (set_role_permissions_ok r r' role t actions e))
      ∙ lookup-granted_to r.permissions role t actions role' t' in
    now ∙ ap (λ o. is_listed o a) looked ∙ elim (Bool-cases (role == role' && t == t')) [
      | inl hit ↦ rw hit refl
      | inr miss ↦ rw (miss, has_permission_lem) refl
    ]

grants :
    (resources actions : List String) (permissions : Permissions) (role t a : String)
    → granted_to permissions role ≡ grant_each resources actions []
    → has_permission permissions role t a ≡ contains resources t && contains actions a
unfolding lookup
grants resources actions permissions role t a e =
    has_permission_lem permissions role t a
    ∙ rw (e, lookup-grant_each)
        (elim (Bool-cases (contains resources t)) [
          | inl there ↦ rw there refl
          | inr absent ↦ rw absent refl
        ])

viewer_permission :
    (t a : String)
    → has_permission default_permissions "viewer" t a
      ≡ contains viewer_resources t && contains viewer_actions a
viewer_permission t a =
    grants viewer_resources viewer_actions default_permissions "viewer" t a
      (unfold default_permissions granted_to lookup insert in refl)

admin_permission :
    (t a : String)
    → has_permission default_permissions "admin" t a
      ≡ contains admin_resources t && contains all_actions a
admin_permission t a =
    grants admin_resources all_actions default_permissions "admin" t a
      (unfold default_permissions granted_to lookup insert in refl)

-- The same with another list of actions for one resource type.
grants_but :
    (resources actions : List String) (special : String) (few : List String)
    (permissions : Permissions) (role t a : String)
    → granted_to permissions role ≡ insert special few (grant_each resources actions [])
    → has_permission permissions role t a
      ≡ (if special == t then contains few a else contains resources t && contains actions a)
unfolding lookup
grants_but resources actions special few permissions role t a e =
    has_permission_lem permissions role t a
    ∙ rw (e, lookup-insert, lookup-grant_each)
        (elim (Bool-cases (special == t)) [
          | inl hit ↦ rw hit refl
          | inr miss ↦ rw miss (elim (Bool-cases (contains resources t)) [
            | inl there ↦ rw there refl
            | inr absent ↦ rw absent refl
          ])
        ])

operator_permission :
    (t a : String)
    → has_permission default_permissions "operator" t a ≡ (
        if "RBAC" == t
        then contains ("read" ∷ "list" ∷ []) a
        else contains operator_resources t && contains all_actions a)
operator_permission t a =
    grants_but operator_resources all_actions "RBAC" ("read" ∷ "list" ∷ []) default_permissions
      "operator" t a (unfold default_permissions granted_to lookup insert in refl)

subset : (few many : List String) → All (λ x. x ∈ many) few → (t : String) → t ∈ few → t ∈ many
subset [] many all t there = cc
subset (x ∷ few) many (here, rest) t there = elim (Bool-cases (x == t)) [
  | inl same ↦ subst (λ y. y ∈ many) ((eq_iff x t).0 same) here
  | inr apart ↦ subset few many rest t (ground arith)
]

resources_subset : (t : String) → t ∈ operator_resources → t ∈ admin_resources
resources_subset t =
    subset operator_resources admin_resources
      (
        refl,
        (
          refl,
          (
            refl,
            (
              refl,
              (
                refl,
                (refl, (refl, (refl, (refl, (refl, (refl, (refl, (refl, (refl, (refl, tt)))))))))),
              ),
            ),
          ),
        ),
      )
      t

and_true : (a b : Bool) → a && b ≡ true → (a ≡ true) × (b ≡ true)
and_true a b h = (ground arith, ground arith)

operator_below :
    (t a : String)
    → has_permission default_permissions "operator" t a ≡ true
    → has_permission default_permissions "admin" t a ≡ true
operator_below t a h = elim (Bool-cases ("RBAC" == t)) [
  | inl same ↦
      let few : a ∈ "read" ∷ "list" ∷ [] = sym (operator_permission t a ∙ rw same refl) ∙ h in
      let able = subset ("read" ∷ "list" ∷ []) all_actions (refl, (refl, tt)) a few in
      let there : t ∈ admin_resources =
        subst (λ x. x ∈ admin_resources) ((eq_iff "RBAC" t).0 same) refl in
      admin_permission t a ∙ rw (there, able) refl
  | inr other ↦
      let (there, able) =
        and_true (contains operator_resources t) (contains all_actions a)
          (sym (operator_permission t a ∙ rw other refl) ∙ h) in
      admin_permission t a ∙ rw (resources_subset t there, able) refl
]

-- By default: what a viewer may do is to read, list, validate or plan; an admin may do whatever an
-- operator may do; and of the access control itself an operator may do no more than read and list.
pub new_rbac-roles :
    (t a : String)
    → (has_permission new_rbac.permissions role_viewer t a ≡ true → a ∈ viewer_actions)
      × (has_permission new_rbac.permissions role_operator t a ≡ true
          → has_permission new_rbac.permissions role_admin t a ≡ true)
      × (has_permission new_rbac.permissions role_operator "RBAC" a ≡ true
          → a ∈ "read" ∷ "list" ∷ [])
unfolding new_rbac
new_rbac-roles t a = (
  λ h.
      (and_true (contains viewer_resources t) (contains viewer_actions a)
        (sym (viewer_permission t a) ∙ h)).1,
  (λ h. operator_below t a h),
  λ h. sym (operator_permission "RBAC" a) ∙ h,
)
