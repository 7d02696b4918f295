-- ===== src/Quota/Usage/Scopes.antt =====
-- internal/quota/manager.go: which requests a registered quota counts.
use platformfoundry_ce.Base.{String, ◌≡◌, ◌≢◌, Bool, true, false, some, arith, ◌==◌, eq_iff}
use platformfoundry_ce.Base.Int64.{Int64}
use platformfoundry_ce.Base.Maps.{lookup}
use platformfoundry_ce.Quota.Types.{QuotaScope, ResourceQuota, ok, validate, scope_matches}
use platformfoundry_ce.Quota.Manager.{Manager, applicable}
use platformfoundry_ce.Quota.Usage.Invariant.{Reached, Reached-IsWellFormed}

validate_name : (q : ResourceQuota) → validate q ≡ ok tt → (q.scope.name == "") ≡ false
unfolding validate
validate_name q e = ground arith

scope_matches_named :
    (mine asked : QuotaScope)
    → (mine.name == "") ≡ false
    → scope_matches mine asked ≡ true
    → (mine.name ≡ asked.name) × (mine.type ≡ asked.type)
unfolding scope_matches
scope_matches_named mine asked named h =
    (ground (arith, eq_iff mine.name asked.name), ground (arith, eq_iff mine.type asked.type))

applicable_lem :
    (m : Manager) (scope : QuotaScope) (resource key : String) (quota : ResourceQuota)
    (limit : Int64)
    → applicable m scope resource key ≡ some (quota, limit)
    → (lookup key m.quotas ≡ some quota)
      × (scope_matches quota.scope scope ≡ true)
      × (lookup resource quota.hard ≡ some limit)
unfolding applicable
applicable_lem m scope resource key quota limit e = (ground arith, ground arith, ground arith)

-- In a reachable state a quota counts a request only if the request has exactly the type and the
-- name of its scope, and the quota has a hard limit for the resource: no registered quota counts
-- for all names.
pub applicable-exact :
    (reaches : Int64 → Int64 → Int64 → Bool) (m : Manager)
    → Reached reaches m
    → (scope : QuotaScope) (resource key : String) (quota : ResourceQuota) (limit : Int64)
    → applicable m scope resource key ≡ some (quota, limit)
    → (quota.scope.name ≡ scope.name)
      × (quota.scope.type ≡ scope.type)
      × (quota.scope.name ≢ "")
      × (lookup resource quota.hard ≡ some limit)
applicable-exact reaches m reached scope resource key quota limit e =
    let (there, matches, limited) = applicable_lem m scope resource key quota limit e in
    let well = Reached-IsWellFormed reaches reached in
    let named = validate_name quota (well.names key quota there).1 in
    let (name, type) = scope_matches_named quota.scope scope named matches in
    (name, type, (λ none. ground (arith, eq_iff quota.scope.name "")), limited)
