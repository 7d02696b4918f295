-- ===== src/Rbac/Orgs/Refinement.antt =====
-- internal/rbac/org_rbac.go with internal/rbac/rbac.go: each call as a step of the abstract state.
use platformfoundry_ce.Base.{
  String, ◌≡◌, refl, sym, ◌∙◌, inl, inr, true, false, not, ◌&&◌, ◌||◌, none, some, List, [], ◌∷◌,
  ◌++◌, ◌==◌, contains, arith, eq_iff, eq_refl, Bool-cases, Option-cases, contains-append,
}
use platformfoundry_ce.Base.Maps.{lookup, insert, has, has-delete}
use platformfoundry_ce.Rbac.Access.{
  User, Rbac, new_rbac, are_valid_roles, add_user, update_user, delete_user,
}
use platformfoundry_ce.Rbac.Orgs.{
  is_valid_org_role, org_roles_of, add_organization_role, without, put_roles,
  remove_organization_role,
}
use platformfoundry_ce.Rbac.Orgs.Members.{
  is_member, Op, enrol, assign, expel, join, leave, kept, apply, run, Spec, step, replay, Refines,
  contains-without, org_roles_of-put_roles, is_member_found, is_member_absent, org_roles_of-insert,
  is_member-delete, put_user-Refines,
}

module _ (r : Rbac) (s : Spec) (f : Refines r s) where
  has_found : (u : String) {user : User} → lookup u r.users ≡ some user → s.exists u ≡ true
  unfolding has
  has_found u e = sym (f.exists u) ∙ rw (e, has) refl

  has_absent : (u : String) → lookup u r.users ≡ none → s.exists u ≡ false
  unfolding has
  has_absent u e = sym (f.exists u) ∙ rw (e, has) refl

  member_found :
      (u o x : String) {user : User}
      → lookup u r.users ≡ some user
      → s.member u o x ≡ contains (org_roles_of user o) x
  member_found u o x e = sym (f.member u o x) ∙ is_member_found r u o x e

  member_absent : (u o x : String) → lookup u r.users ≡ none → s.member u o x ≡ false
  member_absent u o x e = sym (f.member u o x) ∙ is_member_absent r u o x e

  enrol-Refines :
      (u email : String) (roles : List String)
      → Refines (apply (enrol u email roles) r) (step (enrol u email roles) s)
  unfolding apply kept add_user step org_roles_of lookup
  enrol-Refines u email roles = elim (Bool-cases (are_valid_roles roles)) [
    | inr bad ↦ rw bad f
    | inl good ↦
        let user : User = record {
          username = u;
          email = email;
          roles = roles;
          organization_roles = [];
        } in
        rw good (
          put_user-Refines r s _ u user (ground (arith, eq_refl u)) (λ v apart. ground arith)
            (λ o x. ground (arith, eq_refl u)) (λ v o x apart. ground arith) f)
  ]

  assign-Refines :
      (u : String) (roles : List String)
      → Refines (apply (assign u roles) r) (step (assign u roles) s)
  unfolding apply kept update_user step org_roles_of
  assign-Refines u roles = elim (Option-cases (lookup u r.users)) [
    | inl e ↦ rw (e, update_user) f
    | inr (user, e) ↦ (elim (Bool-cases (are_valid_roles roles)) [
      | inr bad ↦ rw (e, bad, update_user) f
      | inl good ↦
          rw (e, good, update_user)
            (put_user-Refines r s s u (record user { roles = roles }) (has_found u e)
              (λ v apart. refl) (λ o x. member_found u o x e) (λ v o x apart. refl) f)
    ])
  ]

  expel-Refines : (u : String) → Refines (apply (expel u) r) (step (expel u) s)
  unfolding apply kept delete_user step
  expel-Refines u = elim (Option-cases (lookup u r.users)) [
    | inl e ↦
        let absent : has u r.users ≡ false = f.exists u ∙ has_absent u e in
        rw absent (record {
          exists = λ v. ground (arith, f.exists v, has_absent u e, eq_iff u v);
          member = λ v o x. ground (arith, f.member v o x, member_absent u o x e, eq_iff u v);
        })
    | inr (user, e) ↦
        let there : has u r.users ≡ true = f.exists u ∙ has_found u e in
        rw there (record {
          exists = λ v. has-delete u v r.users ∙ ground (arith, f.exists v);
          member = λ v o x. is_member-delete r u v o x ∙ ground (arith, f.member v o x);
        })
  ]

  joined :
      (u p y : String) (user : User)
      → lookup u r.users ≡ some user
      → (o x : String)
      → (u == u && (p == o && y == x)) || s.member u o x
        ≡ contains
            (org_roles_of
              (record user {
                organization_roles =
                    insert p (org_roles_of user p ++ y ∷ []) user.organization_roles;
              })
              o)
            x
  joined u p y user e o x = rw org_roles_of-insert (elim (Bool-cases (p == o)) [
    | inr apart ↦ rw apart (ground (arith, member_found u o x e))
    | inl same ↦
        rw same (rw contains-append (ground (arith, member_found u o x e, eq_refl u, eq_iff p o)))
  ])

  left :
      (u p y : String) (user : User)
      → lookup u r.users ≡ some user
      → (o x : String)
      → not (u == u && (p == o && y == x)) && s.member u o x
        ≡ contains
            (org_roles_of
              (record user {
                organization_roles =
                    put_roles p (without y (org_roles_of user p)) user.organization_roles;
              })
              o)
            x
  left u p y user e o x = rw org_roles_of-put_roles (elim (Bool-cases (p == o)) [
    | inr apart ↦ rw apart (ground (arith, member_found u o x e))
    | inl same ↦
        rw same (rw contains-without (ground (arith, member_found u o x e, eq_refl u, eq_iff p o)))
  ])

  join-Refines : (u p y : String) → Refines (apply (join u p y) r) (step (join u p y) s)
  unfolding apply kept add_organization_role step
  join-Refines u p y = elim (Option-cases (lookup u r.users)) [
    | inl e ↦ rw (e, has_absent u e, add_organization_role) f
    | inr (user, e) ↦ (elim (Bool-cases (is_valid_org_role y)) [
      | inr bad ↦ rw (e, has_found u e, bad, add_organization_role) f
      | inl good ↦ (elim (Bool-cases (contains (org_roles_of user p) y)) [
        | inl has_it ↦
            rw (e, has_found u e, good, has_it, add_organization_role)
              (record {
                exists = f.exists;
                member = λ v o x. ground (
                  arith,
                  f.member v o x,
                  member_found u o x e,
                  eq_iff u v,
                  eq_iff p o,
                  eq_iff y x,
                );
              })
        | inr new ↦
            rw (e, has_found u e, good, new, add_organization_role)
              (put_user-Refines r s _ u _ (has_found u e) (λ v apart. refl) (joined u p y user e)
                (λ v o x apart. ground arith) f)
      ])
    ])
  ]

  leave-Refines : (u p y : String) → Refines (apply (leave u p y) r) (step (leave u p y) s)
  unfolding apply kept remove_organization_role step
  leave-Refines u p y = elim (Option-cases (lookup u r.users)) [
    | inl e ↦
        rw (e, remove_organization_role)
          (record {
            exists = f.exists;
            member = λ v o x. ground (arith, f.member v o x, member_absent u o x e, eq_iff u v);
          })
    | inr (user, e) ↦
        rw (e, remove_organization_role)
          (put_user-Refines r s _ u _ (has_found u e) (λ v apart. refl) (left u p y user e)
            (λ v o x apart. ground arith) f)
  ]

apply-Refines : (op : Op) (r : Rbac) (s : Spec) → Refines r s → Refines (apply op r) (step op s)
apply-Refines (enrol u email roles) r s f = enrol-Refines r s f u email roles
apply-Refines (assign u roles) r s f = assign-Refines r s f u roles
apply-Refines (expel u) r s f = expel-Refines r s f u
apply-Refines (join u p y) r s f = join-Refines r s f u p y
apply-Refines (leave u p y) r s f = leave-Refines r s f u p y

run-Refines :
    (ops : List Op) (r : Rbac) (s : Spec) → Refines r s → Refines (run ops r) (replay ops s)
unfolding run replay
run-Refines [] r s f = f
run-Refines (op ∷ ops) r s f = run-Refines ops (apply op r) (step op s) (apply-Refines op r s f)

-- No users.
abbrev pub nothing : Spec
nothing = record { exists = λ u. false; member = λ u o x. false }

-- Whatever calls of AddUser, UpdateUser, DeleteUser, AddOrganizationRole and RemoveOrganizationRole
-- a client of a new instance makes, some of which may fail: the users, and who has which role in
-- which organisation, are afterwards those of the abstract state on which each call adds or takes
-- away exactly what it names.
pub run-Refines_new : (ops : List Op) → Refines (run ops new_rbac) (replay ops nothing)
unfolding new_rbac has lookup is_member
run-Refines_new ops =
    run-Refines ops new_rbac nothing (record { exists = λ u. refl; member = λ u o x. refl })
