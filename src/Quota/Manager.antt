-- ===== src/Quota/Manager.antt =====
-- internal/quota/manager.go: the quota manager. Percentages are floats: that the usage reaches a
-- percentage of the limit is the parameter `reaches usage limit percentage`. The alert handler runs
-- in a goroutine of its own: the alerts handed to it are a list, oldest first.
pub mod Limits
use platformfoundry_ce.Base.{
  ℕ, String, Bool, true, false, not, ◌&&◌, Option, none, some, List, [], ◌∷◌, ◌++◌, if◌then◌else◌,
  ◌==◌, ltb,
}
use platformfoundry_ce.Base.Int64.{Int64, zero_i64, add_i64, sub_i64}
use platformfoundry_ce.Base.Maps.{Map, lookup, insert, delete, has, keys, RangeOrder}
use platformfoundry_ce.Quota.Types.{
  QuotaScope, QuotaAlertPolicy, ResourceQuota, Severity, critical, warning, Warning, soft_limit,
  threshold, QuotaCheckResult, quota_not_found, quota_exceeded, Result, ok, err,
  enforcement_mode_enforce, validate, scope_matches,
}

pub record Alert : Type 0 where
  pub resource : String
  pub severity : Severity
  pub usage : Int64
  pub limit : Int64

pub record Manager : Type 0 where
  pub quotas : Map ResourceQuota
  pub usage : Map (Map Int64)
  pub enforcement_mode : String
  pub has_alert_handler : Bool
  pub alerts : List Alert

unfoldable pub new_manager : String → Bool → Manager
new_manager mode handler = record {
  quotas = [];
  usage = [];
  enforcement_mode = if mode == "" then enforcement_mode_enforce else mode;
  has_alert_handler = handler;
  alerts = [];
}

unfoldable pub register_quota : Manager → ResourceQuota → Result Manager
register_quota m quota = elim (validate quota) [
  | err e ↦ err e
  | ok u ↦
      ok (record m {
        quotas = insert quota.name quota m.quotas;
        usage = insert quota.name [] m.usage;
      })
]

unfoldable pub unregister_quota : Manager → String → Result Manager
unregister_quota m name =
    if has name m.quotas
    then ok (record m { quotas = delete name m.quotas; usage = delete name m.usage })
    else err quota_not_found

-- `m.usage[key]`, where no map and the empty one are read alike.
unfoldable pub usage_of : Manager → String → Map Int64
usage_of m key = elim (lookup key m.usage) [ none ↦ [] | some of_key ↦ of_key ]

-- `m.usage[key][resource]`: 0 where there is no entry.
unfoldable pub used : Manager → String → String → Int64
unfolding usage_of
used m key resource = elim (lookup resource (usage_of m key)) [ none ↦ zero_i64 | some n ↦ n ]

-- The two `continue`s that open each loop over the quotas: the quota and its hard limit, if its
-- scope matches and it has a limit for the resource.
unfoldable pub applicable : Manager → QuotaScope → String → String → Option (ResourceQuota × Int64)
applicable m scope resource key = elim (lookup key m.quotas) [
  | none ↦ none
  | some quota ↦
      if scope_matches quota.scope scope
      then (elim (lookup resource quota.hard) [ none ↦ none | some limit ↦ some (quota, limit) ])
      else none
]

-- A round of the loop of `Check` returns the result, or goes on.
pub data Round : Type 0 where
  return continue : QuotaCheckResult → Round

module _ (reaches : Int64 → Int64 → Int64 → Bool) where
  pub policy_warnings : Option QuotaAlertPolicy → String → Int64 → Int64 → List Warning
  policy_warnings none resource new_usage limit = []
  policy_warnings (some policy) resource new_usage limit =
      if reaches new_usage limit policy.critical_threshold
      then threshold critical resource new_usage limit ∷ []
      else if reaches new_usage limit policy.warning_threshold
      then threshold warning resource new_usage limit ∷ []
      else []

  pub soft_warnings : ResourceQuota → String → Int64 → List Warning
  soft_warnings quota resource new_usage = elim (lookup resource quota.soft) [
    | none ↦ []
    | some limit ↦ if ltb limit new_usage then soft_limit resource new_usage limit ∷ [] else []
  ]

  pub check_quota : Manager → QuotaScope → String → Int64 → String → QuotaCheckResult → Round
  unfolding policy_warnings soft_warnings
  check_quota m scope resource requested key result = elim (applicable m scope resource key) [
    | none ↦ continue result
    | some (quota, limit) ↦
        let current = used m key resource in
        let new_usage = add_i64 current requested in
        let seen = record result {
          current_usage = current;
          limit = limit;
          available = sub_i64 limit current;
        } in
        if ltb limit new_usage
        then return (record seen {
          allowed = not (m.enforcement_mode == enforcement_mode_enforce);
          exceeded_quota = some key;
        })
        else continue (record seen {
          warnings =
              result.warnings
              ++ soft_warnings quota resource new_usage
              ++ policy_warnings quota.alert_policy resource new_usage limit;
        })
  ]

  pub check_from :
      Manager → QuotaScope → String → Int64 → List String → QuotaCheckResult → QuotaCheckResult
  unfolding check_quota
  check_from m scope resource requested [] result = result
  check_from m scope resource requested (key ∷ keys) result =
      elim (check_quota m scope resource requested key result) [
        | return r ↦ r
        | continue r ↦ check_from m scope resource requested keys r
      ]

  abbrev pub no_result : QuotaCheckResult
  no_result = record {
    allowed = true;
    exceeded_quota = none;
    current_usage = zero_i64;
    limit = zero_i64;
    available = zero_i64;
    warnings = [];
  }

  -- `Check`; it returns no error.
  pub check : RangeOrder → Manager → QuotaScope → String → Int64 → QuotaCheckResult
  unfolding check_from
  check range m scope resource requested =
      check_from m scope resource requested (range 0 (keys m.quotas)) no_result
