-- ===== src/Rbac/Orgs/Members.antt =====
-- internal/rbac/org_rbac.go with the calls of internal/rbac/rbac.go: the state of the users as the
-- set of who has which role in which organisation.
use platformfoundry_ce.Base.{
  String, ◌≡◌, sym, ap, ◌∙◌, inl, inr, Bool, true, false, not, ◌&&◌, ◌||◌, none, some, List, [],
  ◌∷◌, if◌then◌else◌, ◌==◌, contains, arith, eq_iff, Bool-cases,
}
use platformfoundry_ce.Base.Maps.{
  lookup, insert, delete, has, has-insert, lookup-insert, lookup-delete,
}
use platformfoundry_ce.Rbac.Access.{
  User, Rbac, Result, ok, err, are_valid_roles, add_user, update_user, delete_user,
}
use platformfoundry_ce.Rbac.Orgs.{
  is_valid_org_role, org_roles_of, put_user, add_organization_role, without, put_roles,
  remove_organization_role,
}

-- The user has the role in the organisation.
unfoldable pub is_member : Rbac → String → String → String → Bool
is_member r u o x = elim (lookup u r.users) [
  | none ↦ false
  | some user ↦ contains (org_roles_of user o) x
]

pub data Op : Type 0 where
  enrol : (username email : String) (roles : List String) → Op
  assign : (username : String) (roles : List String) → Op
  expel : (username : String) → Op
  join leave : (username organization role : String) → Op

-- A call that fails changes nothing.
unfoldable pub kept : Rbac → Result Rbac → Rbac
kept r (err e) = r
kept r (ok r') = r'

unfoldable pub apply : Op → Rbac → Rbac
apply (enrol username email roles) r = kept r (add_user r username email roles)
apply (assign username roles) r = kept r (update_user r username roles)
apply (expel username) r = kept r (delete_user r username)
apply (join username organization role) r =
    kept r (add_organization_role r username organization role)
apply (leave username organization role) r =
    kept r (remove_organization_role r username organization role)

unfoldable pub run : List Op → Rbac → Rbac
run [] r = r
run (op ∷ ops) r = run ops (apply op r)

-- The abstract state: who is a user, and who has which role where.
pub record Spec : Type 0 where
  pub exists : String → Bool
  pub member : String → String → String → Bool

unfoldable pub step : Op → Spec → Spec
step (enrol u email roles) s =
    if are_valid_roles roles
    then record {
      exists = λ v. u == v || s.exists v;
      member = λ v o x. not (u == v) && s.member v o x;
    }
    else s
step (assign u roles) s = s
step (expel u) s = record {
  exists = λ v. not (u == v) && s.exists v;
  member = λ v o x. not (u == v) && s.member v o x;
}
step (join u p y) s =
    if s.exists u && is_valid_org_role y
    then record {
      exists = s.exists;
      member = λ v o x. (u == v && (p == o && y == x)) || s.member v o x;
    }
    else s
step (leave u p y) s = record {
  exists = s.exists;
  member = λ v o x. not (u == v && (p == o && y == x)) && s.member v o x;
}

unfoldable pub replay : List Op → Spec → Spec
replay [] s = s
replay (op ∷ ops) s = replay ops (step op s)

pub record Refines (r : Rbac) (s : Spec) : Type 0 where
  pub exists : (u : String) → has u r.users ≡ s.exists u
  pub member : (u o x : String) → is_member r u o x ≡ s.member u o x

pub contains-without :
    (y : String) (roles : List String) (x : String)
    → contains (without y roles) x ≡ not (y == x) && contains roles x
unfolding without
contains-without y [] x = ground arith
contains-without y (r ∷ rs) x =
    ground (arith, contains-without y rs x, eq_iff r y, eq_iff r x, eq_iff y x)

pub org_roles_of-put_roles :
    (user : User) (p : String) (roles : List String) (o : String)
    → org_roles_of
        (record user { organization_roles = put_roles p roles user.organization_roles })
        o
      ≡ (if p == o then roles else org_roles_of user o)
unfolding org_roles_of
org_roles_of-put_roles user p [] o = ground (arith, lookup-delete p o user.organization_roles)
org_roles_of-put_roles user p (r ∷ rs) o =
    ground (arith, lookup-insert p o (r ∷ rs) user.organization_roles)

pub org_roles_of-insert :
    (user : User) (p : String) (roles : List String) (o : String)
    → org_roles_of (record user { organization_roles = insert p roles user.organization_roles }) o
      ≡ (if p == o then roles else org_roles_of user o)
unfolding org_roles_of
org_roles_of-insert user p roles o = ground (arith, lookup-insert p o roles user.organization_roles)

pub is_member-delete :
    (r : Rbac) (u v o x : String)
    → is_member (record r { users = delete u r.users }) v o x ≡ not (u == v) && is_member r v o x
unfolding is_member
is_member-delete r u v o x = ground (arith, lookup-delete u v r.users)

-- A write of a user that is there.
is_member-put_user :
    (r : Rbac) (u : String) (user : User) (v o x : String)
    → is_member (put_user r u user) v o x
      ≡ (if u == v then contains (org_roles_of user o) x else is_member r v o x)
unfolding is_member
is_member-put_user r u user v o x = ground (arith, lookup-insert u v user r.users)

pub is_member_found :
    (r : Rbac) (u o x : String) {user : User}
    → lookup u r.users ≡ some user
    → is_member r u o x ≡ contains (org_roles_of user o) x
unfolding is_member
is_member_found r u o x e = rw (e, is_member)

pub is_member_absent :
    (r : Rbac) (u o x : String) → lookup u r.users ≡ none → is_member r u o x ≡ false
unfolding is_member
is_member_absent r u o x e = rw (e, is_member)

pub put_user-Refines :
    (r : Rbac) (s s' : Spec) (u : String) (user' : User)
    → s'.exists u ≡ true
    → ((v : String) → (u == v) ≡ false → s'.exists v ≡ s.exists v)
    → ((o x : String) → s'.member u o x ≡ contains (org_roles_of user' o) x)
    → ((v o x : String) → (u == v) ≡ false → s'.member v o x ≡ s.member v o x)
    → Refines r s
    → Refines (put_user r u user') s'
put_user-Refines r s s' u user' at_u beside_u mine others f = record {
  exists =
      λ v. has-insert u v user' r.users ∙ ground (arith, f.exists v, at_u, beside_u v, eq_iff u v);
  member = λ v o x. is_member-put_user r u user' v o x ∙ elim (Bool-cases (u == v)) [
    | inr apart ↦ rw apart (f.member v o x ∙ sym (others v o x apart))
    | inl same ↦ rw same (sym (mine o x) ∙ ap (λ w. s'.member w o x) ((eq_iff u v).0 same))
  ];
}
