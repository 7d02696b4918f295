-- ===== src/Jit/Grants.antt =====
-- internal/rbac/jit.go: the calls on grants, their timers and the cleanup keep the manager sound.
use platformfoundry_ce.Base.{
  ◌+◌, String, ◌≡◌, refl, sym, subst, inl, inr, false, not, ◌&&◌, some, arith, ◌==◌, eq_iff,
  Bool-cases, Option-cases, ltb,
}
use platformfoundry_ce.Base.Int64.{Int64}
use platformfoundry_ce.Base.Maps.{lookup, insert}
use platformfoundry_ce.Jit.Manager.{
  Time, Status, expired, revoked, Request, Grant, Manager, revoke_access, extend_access, end_grant,
  set_status, drop_grant, extensions_used_up,
}
use platformfoundry_ce.Jit.Cleanup.{clean_grant, clean_request, is_open, kept_for}
use platformfoundry_ce.Jit.Sharing.{write_request-IsSound}
use platformfoundry_ce.Jit.Sound.{
  IsSound, Unbacking, UnbackingBut, drop-IsSound, forget-IsSound, not_approved-Unbacking,
  dropped-Unbacking, grant-IsSound,
}
use platformfoundry_ce.Jit.Requests.{if-IsSound, schedule-IsSound}

set_status-IsSound :
    (now : Time) (id : String) (status : Status) (m : Manager)
    → Unbacking m id
    → IsSound m
    → IsSound (set_status now id status m)
unfolding set_status
set_status-IsSound now id status m free s = elim (Option-cases (lookup id m.requests)) [
  | inl e ↦ rw (e, set_status) s
  | inr (r, e) ↦ rw (e, set_status) (write_request-IsSound id _ r m e refl (s.named id r e) free s)
]

-- The end of a grant, with the status that its request then gets.
ended-IsSound :
    (now : Time) (k : String) (g : Grant) (status : Status) (m : Manager)
    → lookup k m.active_grants ≡ some g
    → IsSound m
    → IsSound (set_status now g.request_id status (drop_grant k m))
unfolding drop_grant
ended-IsSound now k g status m e s =
    set_status-IsSound now g.request_id status _ (dropped-Unbacking m k g s e) (drop-IsSound k m s)

pub revoke-IsSound :
    (now : Time) (k : String) (m : Manager) → IsSound m → IsSound (revoke_access now k m).1
unfolding revoke_access
revoke-IsSound now k m s = elim (Option-cases (lookup k m.active_grants)) [
  | inl e ↦ rw (e, revoke_access) s
  | inr (g, e) ↦ rw (e, (s.active k g e).1, revoke_access) (ended-IsSound now k g revoked m e s)
]

longer-IsSound :
    (k : String) (g g' : Grant) (m : Manager)
    → lookup k m.active_grants ≡ some g
    → g' ≡ record g { expires_at = g'.expires_at; extend_count = g'.extend_count }
    → IsSound m
    → IsSound (record m { active_grants = insert k g' m.active_grants })
longer-IsSound k g g' m e same s =
    let (r, found, backs) = s.backed k g e in
    let (named, active) = s.active k g e in
    let other : UnbackingBut k m g.request_id = λ j h apart there.
      elim (Bool-cases (h.request_id == g.request_id)) [
        | inr differs ↦ differs
        | inl one ↦
            let at = s.single j k h g there e ((eq_iff h.request_id g.request_id).0 one) in
            ground (arith, eq_iff k j)
      ] in
    subst (λ x. IsSound (record m { active_grants = insert k x m.active_grants })) (sym same)
      (grant-IsSound k _ r m named active found
        (record {
          status = backs.status;
          user = backs.user;
          resource = backs.resource;
          role = backs.role;
          approver = backs.approver;
        })
        other s)

pub extend-IsSound :
    (now : Time) (k : String) (additional : Int64) (m : Manager)
    → IsSound m
    → IsSound (extend_access now k additional m).1
unfolding extend_access
extend-IsSound now k additional m s = elim (Option-cases (lookup k m.active_grants)) [
  | inl e ↦ rw (e, extend_access) s
  | inr (g, e) ↦
      rw (e, extend_access)
        (if-IsSound g.is_active _ _
          (if-IsSound (extensions_used_up m g) _ _ s
            (schedule-IsSound now _ _ (longer-IsSound k g _ m e refl s)))
          s)
]

pub end_grant-IsSound : (k : String) (m : Manager) → IsSound m → IsSound (end_grant k m)
unfolding end_grant drop_grant
end_grant-IsSound k m s = elim (Option-cases (lookup k m.active_grants)) [
  | inl e ↦ rw (e, end_grant) s
  | inr (g, e) ↦ rw (e, (s.active k g e).1, end_grant) (drop-IsSound k m s)
]

pub clean_grant-IsSound :
    (now : Time) (k : String) (m : Manager) → IsSound m → IsSound (clean_grant now k m)
unfolding clean_grant
clean_grant-IsSound now k m s = elim (Option-cases (lookup k m.active_grants)) [
  | inl e ↦ rw (e, clean_grant) s
  | inr (g, e) ↦ (elim (Bool-cases (ltb g.expires_at now && g.is_active)) [
    | inr not_yet ↦ rw (e, not_yet, clean_grant) s
    | inl late ↦ rw (e, late, clean_grant) (ended-IsSound now k g expired m e s)
  ])
]

closed-Unbacking :
    (m : Manager) (id : String) (r : Request)
    → IsSound m
    → lookup id m.requests ≡ some r
    → is_open r.status ≡ false
    → Unbacking m id
closed-Unbacking m id r s e p = not_approved-Unbacking m id s λ q found st.
    let same : r ≡ q = ground arith in
    let shut = subst (λ x. is_open x.status ≡ false) same p in unfold is_open in ground arith

pub clean_request-IsSound :
    (now : Time) (k : String) (m : Manager) → IsSound m → IsSound (clean_request now k m)
unfolding clean_request
clean_request-IsSound now k m s = elim (Option-cases (lookup k m.requests)) [
  | inl e ↦ rw (e, clean_request) s
  | inr (r, e) ↦ (elim (Bool-cases (ltb (r.updated_at + kept_for) now && not (is_open r.status))) [
    | inr kept ↦ rw (e, kept, clean_request) s
    | inl old ↦
        rw (e, old, clean_request)
          (forget-IsSound k m (closed-Unbacking m k r s e (ground arith)) s)
  ])
]
