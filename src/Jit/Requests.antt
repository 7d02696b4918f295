-- ===== src/Jit/Requests.antt =====
-- internal/rbac/jit.go: the calls on requests keep the manager sound.
use platformfoundry_ce.Base.{
  String, ◌≡◌, refl, sym, subst, inl, inr, Bool, true, false, not, Option, none, some, arith,
  if◌then◌else◌, ◌==◌, Bool-cases, Option-cases,
}
use platformfoundry_ce.Base.Maps.{lookup, has, RangeOrder}
use platformfoundry_ce.Jit.Manager.{
  Time, Request, Grant, Policy, Reply, done, Manager, request_access, approve_access, deny_access,
  schedule_revocation, is_pending, approve_request, new_grant, grant_temporary_access,
  find_matching_policy, incomplete, refusal, with_policy, write_request, store_request, new_request,
  should_auto_approve,
}
use platformfoundry_ce.Jit.Sharing.{
  Unheld, lookup-written, write_request-IsSound, other_struct-IsSound, store_request-IsSound,
}
use platformfoundry_ce.Jit.Sound.{
  IsSound, Unbacking, same-IsSound, not_approved-Unbacking, grant-IsSound,
}

pub if-IsSound :
    (b : Bool) (x y : Reply × Manager) → IsSound x.1 → IsSound y.1 → IsSound (if b then x else y).1
if-IsSound true x y hx hy = hx
if-IsSound false x y hx hy = hy

pub schedule-IsSound :
    (now : Time) (g : Grant) (m : Manager) → IsSound m → IsSound (schedule_revocation now g m)
schedule-IsSound now g m s =
    same-IsSound m (schedule_revocation now g m) (unfold schedule_revocation in ground arith)
      (unfold schedule_revocation in ground arith) s

pending-Unbacking :
    (m : Manager) (id : String) (r : Request)
    → IsSound m
    → lookup id m.requests ≡ some r
    → is_pending r.status ≡ true
    → Unbacking m id
pending-Unbacking m id r s e p = not_approved-Unbacking m id s λ q found st.
    let same : r ≡ q = ground arith in
    let wait = subst (λ x. is_pending x.status ≡ true) same p in unfold is_pending in ground arith

absent-Unbacking :
    (m : Manager) (id : String) → IsSound m → has id m.requests ≡ false → Unbacking m id
unfolding has
absent-Unbacking m id s e = not_approved-Unbacking m id s λ q found st. ground arith

-- `ApproveAccess` on a pending request.
approved-IsSound :
    (now : Time) (grant_id id approver : String) (r : Request) (m : Manager)
    → lookup id m.requests ≡ some r
    → is_pending r.status ≡ true
    → IsSound m
    → IsSound (
        grant_temporary_access grant_id
          (approve_request now approver r)
          (write_request (approve_request now approver r) m))
unfolding grant_temporary_access new_grant approve_request
approved-IsSound now grant_id id approver r m e p s =
    let named = s.named id r e in
    let free = pending-Unbacking m id r s e p in
    let r' = approve_request now approver r in
    grant-IsSound grant_id (new_grant grant_id r') r' (write_request r' m) refl refl
      (subst (λ x. lookup x (write_request r' m).requests ≡ some r') (sym named)
        (lookup-written id r' r m e refl))
      (record { status = refl; user = refl; resource = refl; role = refl; approver = refl })
      (λ j h apart there.
        subst (λ x. (h.request_id == x) ≡ false) (sym named)
          (free j h (unfold write_request in there)))
      (write_request-IsSound id r' r m e refl named free s)

pub approve-IsSound :
    (now : Time) (grant_id id approver : String) (m : Manager)
    → IsSound m
    → IsSound (approve_access now grant_id id approver m).1
unfolding approve_access
approve-IsSound now grant_id id approver m s = elim (Option-cases (lookup id m.requests)) [
  | inl e ↦ rw (e, approve_access) s
  | inr (r, e) ↦ (elim (Bool-cases (is_pending r.status)) [
    | inr p ↦ rw (e, p, approve_access) s
    | inl p ↦
        rw (e, p, approve_access)
          (schedule-IsSound now _ _ (approved-IsSound now grant_id id approver r m e p s))
  ])
]

pub deny-IsSound :
    (now : Time) (id denier : String) (m : Manager)
    → IsSound m
    → IsSound (deny_access now id denier m).1
unfolding deny_access
deny-IsSound now id denier m s = elim (Option-cases (lookup id m.requests)) [
  | inl e ↦ rw (e, deny_access) s
  | inr (r, e) ↦ (elim (Bool-cases (is_pending r.status)) [
    | inr p ↦ rw (e, p, deny_access) s
    | inl p ↦
        rw (e, p, deny_access)
          (write_request-IsSound id _ r m e refl (s.named id r e) (pending-Unbacking m id r s e p)
            s)
  ])
]

-- The end of `RequestAccess`, with the policy that it has found.
answered-IsSound :
    (now : Time) (new_id grant_id : String) (found : Option Policy) (r : Request) (m : Manager)
    → IsSound m
    → IsSound (approve_access now grant_id new_id "system:auto-approve" m).1
    → IsSound (
        let answer : Reply × Manager = elim found [
          | none ↦ (done, m)
          | some policy ↦
              if should_auto_approve r policy
              then approve_access now grant_id new_id "system:auto-approve" m
              else (done, m)
        ] in
        answer.1)
answered-IsSound now new_id grant_id none r m s granted = s
answered-IsSound now new_id grant_id (some policy) r m s granted =
    if-IsSound (should_auto_approve r policy) _ _ granted s

with_policy-object :
    (found : Option Policy) (req : Request) → (with_policy found req).object ≡ req.object
unfolding with_policy
with_policy-object none req = refl
with_policy-object (some policy) req = refl

pub request-IsSound :
    (range : RangeOrder) (now : Time) (new_id grant_id : String) (persisted : Bool) (req : Request)
    (m : Manager)
    → has new_id m.requests ≡ false
    → Unheld m req.object
    → IsSound m
    → IsSound (request_access range now new_id grant_id persisted req m).1
unfolding request_access
request-IsSound range now new_id grant_id persisted req m new free s =
    let found = find_matching_policy range m req.resource req.role in
    let r1 = with_policy found req in
    let r' = new_request now new_id r1 in
    let m' : Manager = store_request new_id r' m in
    let unheld : Unheld m r1.object =
      subst (λ x. Unheld m x) (sym (with_policy-object found req)) free in
    let stored : IsSound m' =
      unfold new_request in
      store_request-IsSound new_id r' m refl unheld (absent-Unbacking m new_id s new) s in
    let granted = approve-IsSound now grant_id new_id "system:auto-approve" m' stored in
    elim (Option-cases (incomplete req)) [
      | inr (reason, e) ↦ rw (e, request_access) s
      | inl whole ↦ (elim (Option-cases (refusal found r1)) [
        | inr (reason, e) ↦ rw (whole, e, request_access) (other_struct-IsSound r1 m unheld s)
        | inl e ↦
            rw (whole, e, request_access)
              (if-IsSound (not persisted) _ _ stored
                (answered-IsSound now new_id grant_id found r' m' stored granted))
      ])
    ]
