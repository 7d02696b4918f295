-- ===== src/Jit/Steps.antt =====
-- internal/rbac/jit.go: the calls of the manager and its goroutines, in any order.
use platformfoundry_ce.Base.{
  ◌≤◌, String, ◌≡◌, refl, Bool, false, List, ◌∷◌, ◌++◌, arith, for_each_inv,
}
use platformfoundry_ce.Base.Int64.{Int64}
use platformfoundry_ce.Base.Maps.{lookup, has, RangeOrder}
use platformfoundry_ce.Jit.Manager.{
  Time, Request, Policy, Timer, Manager, new_manager, register_policy, request_access,
  approve_access, deny_access, revoke_access, extend_access, end_grant,
}
use platformfoundry_ce.Jit.Cleanup.{clean_grant, clean_request, cleanup}
use platformfoundry_ce.Jit.Sharing.{Unheld}
use platformfoundry_ce.Jit.Sound.{IsSound, same-IsSound}
use platformfoundry_ce.Jit.Requests.{approve-IsSound, deny-IsSound, request-IsSound}
use platformfoundry_ce.Jit.Grants.{
  revoke-IsSound, extend-IsSound, end_grant-IsSound, clean_grant-IsSound, clean_request-IsSound,
}

-- The calls that change the state, whether they fail or not, and the timers; each is one step. A
-- caller is taken not to write on its own to a struct that it has given to the manager.
pub data Step (m : Manager) : Manager → Type 0 where
  registers : (new_id : String) (policy : Policy) → Step m (register_policy new_id policy m)
  requests :
      (range : RangeOrder) (now : Time) (new_id grant_id : String) (persisted : Bool)
      (req : Request)
      → Step m (request_access range now new_id grant_id persisted req m).1
  approves :
      (now : Time) (grant_id request_id approver : String)
      → Step m (approve_access now grant_id request_id approver m).1
  denies :
      (now : Time) (request_id denier : String) → Step m (deny_access now request_id denier m).1
  revokes : (now : Time) (grant_id : String) → Step m (revoke_access now grant_id m).1
  extends :
      (now : Time) (grant_id : String) (additional : Int64)
      → Step m (extend_access now grant_id additional m).1
  fires :
      (now : Time) (front back : List Timer) (t : Timer)
      → m.timers ≡ front ++ t ∷ back
      → t.fires_at ≤ now
      → Step m (end_grant t.grant_id (record m { timers = front ++ back }))
  cleans : (range : RangeOrder) (now : Time) → Step m (cleanup range now m)

pub data Reached : Manager → Type 0 where
  made : Reached new_manager
  then_step : {m m' : Manager} → Reached m → Step m m' → Reached m'

-- A call of `RequestAccess` makes an ID that no entry has, of a struct that no entry has.
abbrev pub IsFresh : {m m' : Manager} → Step m m' → Type 0
IsFresh {m} (requests range now new_id grant_id persisted req) =
    (has new_id m.requests ≡ false) × Unheld m req.object
IsFresh _ = Unit

abbrev pub AllFresh : {m : Manager} → Reached m → Type 0
AllFresh made = Unit
AllFresh (then_step before step) = AllFresh before × IsFresh step

Step-IsSound : {m m' : Manager} (step : Step m m') → IsFresh step → IsSound m → IsSound m'
Step-IsSound {m} (registers new_id policy) fresh s =
    same-IsSound m (register_policy new_id policy m) (unfold register_policy in refl)
      (unfold register_policy in refl) s
Step-IsSound {m} (requests range now new_id grant_id persisted req) fresh s =
    request-IsSound range now new_id grant_id persisted req m fresh.0 fresh.1 s
Step-IsSound {m} (approves now grant_id request_id approver) fresh s =
    approve-IsSound now grant_id request_id approver m s
Step-IsSound {m} (denies now request_id denier) fresh s = deny-IsSound now request_id denier m s
Step-IsSound {m} (revokes now grant_id) fresh s = revoke-IsSound now grant_id m s
Step-IsSound {m} (extends now grant_id additional) fresh s =
    extend-IsSound now grant_id additional m s
Step-IsSound {m} (fires now front back t e due) fresh s =
    end_grant-IsSound t.grant_id _
      (same-IsSound m (record m { timers = front ++ back }) refl refl s)
Step-IsSound {m} (cleans range now) fresh s =
    unfold cleanup in
    for_each_inv IsSound (clean_request now) (clean_request-IsSound now) _ _
      (for_each_inv IsSound (clean_grant now) (clean_grant-IsSound now) _ m s)

-- In any order of calls and of timers that fire, one after the other, where each call of
-- `RequestAccess` makes an ID that no stored request has, and gets a struct that is not that of a
-- stored request: each active grant has a request that was approved, by the approver and for the
-- user, the resource and the role that the grant names; no two grants have one request, no two
-- entries have one struct; and requests and grants stand under their IDs.
pub Reached-IsSound : {m : Manager} (run : Reached m) → AllFresh run → IsSound m
unfolding new_manager lookup
Reached-IsSound made fresh = record {
  separate = λ k k' r r' e e' same. absurd (ground arith);
  named = λ k r e. absurd (ground arith);
  active = λ k g e. absurd (ground arith);
  backed = λ k g e. absurd (ground arith);
  single = λ k k' g g' e e' same. absurd (ground arith);
}
Reached-IsSound (then_step before step) fresh =
    Step-IsSound step fresh.1 (Reached-IsSound before fresh.0)
