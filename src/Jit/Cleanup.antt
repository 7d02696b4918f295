-- ===== src/Jit/Cleanup.antt =====
-- internal/rbac/jit.go: the periodic cleanup.
use platformfoundry_ce.Base.{
  ℕ, ◌+◌, String, Bool, true, false, not, ◌&&◌, none, some, if◌then◌else◌, ltb, for_each,
}
use platformfoundry_ce.Base.Maps.{lookup, delete, keys, RangeOrder}
use platformfoundry_ce.Jit.Manager.{
  Time, Status, pending, approved, expired, Manager, set_status, drop_grant,
}

-- The body of the loop over the grants.
unfoldable pub clean_grant : Time → String → Manager → Manager
clean_grant now id m = elim (lookup id m.active_grants) [
  | none ↦ m
  | some grant ↦
      if ltb grant.expires_at now && grant.is_active
      then set_status now grant.request_id expired (drop_grant id m)
      else m
]

unfoldable pub is_open : Status → Bool
is_open pending = true
is_open approved = true
is_open _ = false

-- 30 days.
abbrev pub kept_for : ℕ
kept_for = 2592000000000000

-- The body of the loop over the requests.
unfoldable pub clean_request : Time → String → Manager → Manager
clean_request now id m = elim (lookup id m.requests) [
  | none ↦ m
  | some req ↦
      if ltb (req.updated_at + kept_for) now && not (is_open req.status)
      then record m { requests = delete id m.requests }
      else m
]

unfoldable pub cleanup : RangeOrder → Time → Manager → Manager
cleanup range now m =
    let m' = for_each (clean_grant now) (range 0 (keys m.active_grants)) m in
    for_each (clean_request now) (range 1 (keys m'.requests)) m'
