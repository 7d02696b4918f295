-- ===== src/Quota/Types.antt =====
-- pkg/types/quota.go: quotas, their scopes and the outcome of a check. Labels, annotations, times
-- and notification channels are left out.
use platformfoundry_ce.Base.{
  String, Bool, true, false, ◌&&◌, not, Option, none, some, List, [], ◌∷◌, if◌then◌else◌, ◌==◌,
}
use platformfoundry_ce.Base.Int64.{Int64}
use platformfoundry_ce.Base.Maps.{Map, lookup}

pub record QuotaScope : Type 0 where
  pub type : String
  pub name : String
  pub selector : Map String

pub record QuotaAlertPolicy : Type 0 where
  pub warning_threshold : Int64
  pub critical_threshold : Int64

pub record ResourceQuota : Type 0 where
  pub name : String
  pub scope : QuotaScope
  pub hard : Map Int64
  pub soft : Map Int64
  pub alert_policy : Option QuotaAlertPolicy

pub data Severity : Type 0 where
  critical warning : Severity

-- The warnings of a check, with the values that their texts show.
pub data Warning : Type 0 where
  soft_limit : String → Int64 → Int64 → Warning
  threshold : Severity → String → Int64 → Int64 → Warning

pub record QuotaCheckResult : Type 0 where
  pub allowed : Bool
  pub exceeded_quota : Option String
  pub current_usage : Int64
  pub limit : Int64
  pub available : Int64
  pub warnings : List Warning

pub data Error : Type 0 where
  missing_name invalid_scope quota_not_found : Error
  quota_exceeded : Option String → Error

pub data Result {ℓ} (A : Type ℓ) : Type ℓ where
  err : Error → Result A
  ok : A → Result A

-- `EnforcementModeEnforce`; the type of modes is `string`.
abbrev pub enforcement_mode_enforce : String
enforcement_mode_enforce = "enforce"

-- `ResourceQuota.Validate`.
unfoldable pub validate : ResourceQuota → Result (Unit {0})
validate q =
    if q.name == ""
    then err missing_name
    else if q.scope.type == ""
    then err invalid_scope
    else if q.scope.name == ""
    then err invalid_scope
    else ok tt

-- The loop over the selector; the order of its visits cannot be told from its result.
unfoldable pub selector_matches : Map String → Map String → Bool
selector_matches [] requested = true
selector_matches ((k, v) ∷ rest) requested =
    (elim (lookup k requested) [ none ↦ "" | some w ↦ w ]) == v && selector_matches rest requested

unfoldable pub scope_matches : QuotaScope → QuotaScope → Bool
unfolding selector_matches
scope_matches quota_scope request_scope =
    if not (quota_scope.type == request_scope.type)
    then false
    else if not (quota_scope.name == "") && not (quota_scope.name == request_scope.name)
    then false
    else selector_matches quota_scope.selector request_scope.selector
