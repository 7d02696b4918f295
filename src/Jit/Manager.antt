-- ===== src/Jit/Manager.antt =====
-- internal/rbac/jit.go: requests for access, the grants that they get, and the timers that end
-- these. Times are nanoseconds from an epoch far back. What is read from the clock, and the IDs made
-- of it, are arguments. That the state backend accepts a request is an argument too; the other
-- writes to it, the audit log and the notifier have no effect on the state and are left out, with
-- the fields that only they read.
use platformfoundry_ce.Base.{
  ℕ, suc, ◌+◌, ◌-◌, String, Bool, true, false, not, ◌&&◌, ◌||◌, Option, none, some, List, [], ◌∷◌,
  ◌++◌, if◌then◌else◌, ltb, leb, ◌==◌, contains,
}
use platformfoundry_ce.Base.Int64.{Int64, zero_i64, i64}
use platformfoundry_ce.Base.Maps.{Map, lookup, insert, delete, keys, RangeOrder}

abbrev pub Time : Type 0
Time = ℕ

-- `t.Add(d)`; no time is before the epoch.
unfoldable pub add_time : Time → Int64 → Time
add_time t d = t + d - zero_i64

pub data Status : Type 0 where
  pending approved denied expired revoked cancelled : Status

-- The address of a struct.
abbrev pub Address : Type 0
Address = String

-- `object` is the address of the struct. The manager keeps the pointer that its caller gave, so the
-- caller, and each entry of the map with this pointer, sees one struct.
pub record Request : Type 0 where
  pub object : Address
  pub id : String
  pub requester : String
  pub resource : String
  pub role : String
  pub justification : String
  pub duration : Int64
  pub status : Status
  pub approved_by : String
  pub denied_by : String
  pub updated_at : Time
  pub expires_at : Time
  pub policy_id : String

pub record Grant : Type 0 where
  pub id : String
  pub request_id : String
  pub user : String
  pub resource : String
  pub role : String
  pub expires_at : Time
  pub approved_by : String
  pub is_active : Bool
  pub extend_count : ℕ

pub record Policy : Type 0 where
  pub id : String
  pub resource_pattern : String
  pub allowed_roles : List String
  pub max_duration : Int64
  pub max_extensions : Int64
  pub require_justification : Bool
  pub require_approval : Bool
  pub auto_approve_for : List String
  pub enabled : Bool

-- A goroutine of `scheduleRevocation` that sleeps.
pub record Timer : Type 0 where
  pub grant_id : String
  pub fires_at : Time

pub record Manager : Type 0 where
  pub requests : Map Request
  pub active_grants : Map Grant
  pub policies : Map Policy
  pub timers : List Timer

pub data Error : Type 0 where
  no_requester no_resource no_role no_justification too_long not_persisted : Error
  request_not_found not_pending grant_not_found not_active too_many_extensions : Error

-- What a call returns. It may have changed the state before it fails.
pub data Reply : Type 0 where
  done : Reply
  failed : Error → Reply

unfoldable pub new_manager : Manager
new_manager = record { requests = []; active_grants = []; policies = []; timers = [] }

-- `RegisterPolicy`; `new_id` is the ID that it makes for a policy with none.
unfoldable pub register_policy : String → Policy → Manager → Manager
register_policy new_id policy m =
    let named = if policy.id == "" then record policy { id = new_id } else policy in
    record m { policies = insert named.id named m.policies }

unfoldable pub match_pattern : String → String → Bool
match_pattern pattern value = if pattern == "*" then true else pattern == value

unfoldable pub role_matches : List String → String → Bool
role_matches [] role = false
role_matches (r ∷ rs) role = (r == role || r == "*") || role_matches rs role

unfoldable pub policy_matches : Policy → String → String → Bool
policy_matches policy resource role =
    if not policy.enabled
    then false
    else if not (role_matches policy.allowed_roles role)
    then false
    else if policy.resource_pattern == "*"
    then true
    else match_pattern policy.resource_pattern resource

-- The loop of `findMatchingPolicy` over the policies under these keys.
unfoldable pub first_match : Map Policy → String → String → List String → Option Policy
first_match policies resource role [] = none
first_match policies resource role (k ∷ ks) =
    let rest = first_match policies resource role ks in
    elim (lookup k policies) [
      | none ↦ rest
      | some policy ↦ if policy_matches policy resource role then some policy else rest
    ]

unfoldable pub find_matching_policy : RangeOrder → Manager → String → String → Option Policy
find_matching_policy range m resource role =
    first_match m.policies resource role (range 0 (keys m.policies))

unfoldable pub should_auto_approve : Request → Policy → Bool
should_auto_approve req policy =
    if not policy.require_approval then true else contains policy.auto_approve_for req.role

unfoldable pub schedule_revocation : Time → Grant → Manager → Manager
schedule_revocation now grant m = if leb grant.expires_at now then m else record m {
  timers = m.timers ++ record { grant_id = grant.id; fires_at = grant.expires_at } ∷ [];
}

-- What a pointer to `q` shows after `r` was written to the struct at its own address.
unfoldable pub seen_after : Request → Request → Request
seen_after r q = if q.object == r.object then r else q

-- A write to a struct, as the entries of the map show it.
unfoldable pub share : Request → Map Request → Map Request
share r [] = []
share r ((k, q) ∷ entries) = (k, seen_after r q) ∷ share r entries

unfoldable pub write_request : Request → Manager → Manager
write_request r m = record m { requests = share r m.requests }

unfoldable pub is_pending : Status → Bool
is_pending pending = true
is_pending _ = false

unfoldable pub approve_request : Time → String → Request → Request
approve_request now approver req = record req {
  status = approved;
  approved_by = approver;
  updated_at = now;
  expires_at = add_time now req.duration;
}

-- The grant that `grantTemporaryAccess` makes.
unfoldable pub new_grant : String → Request → Grant
new_grant grant_id req = record {
  id = grant_id;
  request_id = req.id;
  user = req.requester;
  resource = req.resource;
  role = req.role;
  expires_at = req.expires_at;
  approved_by = req.approved_by;
  is_active = true;
  extend_count = 0;
}

unfoldable pub grant_temporary_access : String → Request → Manager → Manager
grant_temporary_access grant_id req m = record m {
  active_grants = insert grant_id (new_grant grant_id req) m.active_grants;
}

unfoldable pub approve_access : Time → String → String → String → Manager → Reply × Manager
approve_access now grant_id request_id approver m = elim (lookup request_id m.requests) [
  | none ↦ (failed request_not_found, m)
  | some req ↦
      if is_pending req.status
      then (let req' = approve_request now approver req in
          (
            done,
            schedule_revocation now (new_grant grant_id req')
                (grant_temporary_access grant_id req' (write_request req' m)),
          ))
      else (failed not_pending, m)
]

unfoldable pub deny_access : Time → String → String → Manager → Reply × Manager
deny_access now request_id denier m = elim (lookup request_id m.requests) [
  | none ↦ (failed request_not_found, m)
  | some req ↦
      if is_pending req.status
      then (let req' = record req { status = denied; denied_by = denier; updated_at = now } in
          (done, write_request req' m))
      else (failed not_pending, m)
]

-- The checks that open `RequestAccess`.
unfoldable pub incomplete : Request → Option Error
incomplete req =
    if req.requester == ""
    then some no_requester
    else if req.resource == ""
    then some no_resource
    else if req.role == ""
    then some no_role
    else none

-- `req.PolicyID = policy.ID`, before the checks of the policy.
unfoldable pub with_policy : Option Policy → Request → Request
with_policy none req = req
with_policy (some policy) req = record req { policy_id = policy.id }

-- The checks of the policy.
unfoldable pub refusal : Option Policy → Request → Option Error
refusal none req = none
refusal (some policy) req =
    if policy.require_justification && req.justification == ""
    then some no_justification
    else if ltb policy.max_duration req.duration
    then some too_long
    else none

-- The request as `RequestAccess` stores it.
unfoldable pub new_request : Time → String → Request → Request
new_request now new_id req = record req { id = new_id; status = pending; updated_at = now }

unfoldable pub store_request : String → Request → Manager → Manager
store_request new_id req m = record m { requests = insert new_id req (share req m.requests) }

unfoldable pub request_access :
    RangeOrder → Time → String → String → Bool → Request → Manager → Reply × Manager
request_access range now new_id grant_id persisted req m = elim (incomplete req) [
  | some e ↦ (failed e, m)
  | none ↦
      let found = find_matching_policy range m req.resource req.role in
      let req1 = with_policy found req in
      elim (refusal found req1) [
        | some e ↦ (failed e, write_request req1 m)
        | none ↦
            let req' = new_request now new_id req1 in
            let m' = store_request new_id req' m in
            if not persisted then (failed not_persisted, m') else (elim found [
              | none ↦ (done, m')
              | some policy ↦
                  if should_auto_approve req' policy
                  then approve_access now grant_id new_id "system:auto-approve" m'
                  else (done, m')
            ])
      ]
]

-- `if req, ok := m.requests[id]; ok { req.Status = status; req.UpdatedAt = now }`
unfoldable pub set_status : Time → String → Status → Manager → Manager
set_status now id status m = elim (lookup id m.requests) [
  | none ↦ m
  | some req ↦ write_request (record req { status = status; updated_at = now }) m
]

unfoldable pub drop_grant : String → Manager → Manager
drop_grant grant_id m = record m { active_grants = delete grant_id m.active_grants }

unfoldable pub revoke_access : Time → String → Manager → Reply × Manager
revoke_access now grant_id m = elim (lookup grant_id m.active_grants) [
  | none ↦ (failed grant_not_found, m)
  | some grant ↦
      if grant.is_active
      then (done, set_status now grant.request_id revoked (drop_grant grant_id m))
      else (failed not_active, m)
]

-- The test of the extension limit: true where it is reached.
unfoldable pub extensions_used_up : Manager → Grant → Bool
extensions_used_up m grant = elim (lookup grant.request_id m.requests) [
  | none ↦ false
  | some req ↦ if req.policy_id == "" then false else (elim (lookup req.policy_id m.policies) [
    | none ↦ false
    | some policy ↦ leb policy.max_extensions (i64 grant.extend_count)
  ])
]

unfoldable pub extend_access : Time → String → Int64 → Manager → Reply × Manager
extend_access now grant_id additional m = elim (lookup grant_id m.active_grants) [
  | none ↦ (failed grant_not_found, m)
  | some grant ↦
      if grant.is_active
      then (if extensions_used_up m grant
          then (failed too_many_extensions, m)
          else (let grant' = record grant {
            expires_at = add_time grant.expires_at additional;
            extend_count = suc grant.extend_count;
          } in
              (
                done,
                schedule_revocation now grant'
                    (record m { active_grants = insert grant_id grant' m.active_grants }),
              )))
      else (failed not_active, m)
]

-- The goroutine wakes: `if g, ok := m.activeGrants[grant.ID]; ok && g.IsActive`.
unfoldable pub end_grant : String → Manager → Manager
end_grant grant_id m = elim (lookup grant_id m.active_grants) [
  | none ↦ m
  | some grant ↦ if grant.is_active then drop_grant grant_id m else m
]
