-- ===== src/Quota/Usage.antt =====
-- internal/quota/manager.go: the calls that change the usage.
pub mod Frame
pub mod Loops
pub mod Accounting
pub mod Invariant
pub mod Restore
pub mod Gaps
pub mod Scopes
use platformfoundry_ce.Base.{
  ℕ, String, Bool, true, false, not, ◌||◌, Option, none, some, List, [], ◌∷◌, ◌++◌, if◌then◌else◌,
  ltb,
}
use platformfoundry_ce.Base.Int64.{Int64, zero_i64, add_i64, sub_i64}
use platformfoundry_ce.Base.Maps.{Map, lookup, insert, has, keys, RangeOrder}
use platformfoundry_ce.Quota.Types.{
  QuotaScope, QuotaAlertPolicy, ResourceQuota, Severity, critical, warning, QuotaCheckResult,
  quota_not_found, quota_exceeded, Result, ok, err,
}
use platformfoundry_ce.Quota.Manager.{Manager, Alert, usage_of, used, applicable, check}

-- `m.usage[key][resource] = n`, where the map of the key is made if there is none.
unfoldable pub set_used : String → String → Int64 → Manager → Manager
set_used key resource n m = record m {
  usage = insert key (insert resource n (usage_of m key)) m.usage;
}

-- A loop over the quotas, in the order in which it visits them.
unfoldable pub for_keys : (String → Manager → Manager) → List String → Manager → Manager
for_keys round [] m = m
for_keys round (key ∷ keys) m = for_keys round keys (round key m)

abbrev send_alert : Severity → String → Int64 → Int64 → Manager → Manager
send_alert severity resource usage limit m = record m {
  alerts =
      m.alerts
      ++ record { resource = resource; severity = severity; usage = usage; limit = limit } ∷ [];
}

module _ (reaches : Int64 → Int64 → Int64 → Bool) where
  policy_alert : Option QuotaAlertPolicy → String → Int64 → Int64 → Manager → Manager
  policy_alert none resource usage limit m = m
  policy_alert (some policy) resource usage limit m =
      if reaches usage limit policy.critical_threshold
      then send_alert critical resource usage limit m
      else if reaches usage limit policy.warning_threshold
      then send_alert warning resource usage limit m
      else m

  -- `checkAndTriggerAlerts`; both its callers have found the limit.
  pub check_and_trigger_alerts : String → ResourceQuota → String → Int64 → Manager → Manager
  unfolding policy_alert
  check_and_trigger_alerts key quota resource limit m =
      if m.has_alert_handler
      then (if ltb limit zero_i64 || ltb zero_i64 limit
          then policy_alert quota.alert_policy resource (used m key resource) limit m
          else m)
      else m

  pub consume_quota : QuotaScope → String → Int64 → String → Manager → Manager
  unfolding check_and_trigger_alerts
  consume_quota scope resource amount key m = elim (applicable m scope resource key) [
    | none ↦ m
    | some (quota, limit) ↦
        check_and_trigger_alerts key quota resource limit
          (set_used key resource (add_i64 (used m key resource) amount) m)
  ]

  -- `Consume` up to the end of its check, under the read lock.
  unfoldable pub consume_check :
      RangeOrder → Manager → QuotaScope → String → Int64 → Result (Unit {0})
  consume_check range m scope resource amount =
      let result = check reaches range m scope resource amount in
      if result.allowed then ok tt else err (quota_exceeded result.exceeded_quota)

  -- The rest of `Consume`, under the write lock; its loop is range statement 1.
  pub consume_commit : RangeOrder → Manager → QuotaScope → String → Int64 → Manager
  unfolding for_keys consume_quota
  consume_commit range m scope resource amount =
      for_keys (consume_quota scope resource amount) (range 1 (keys m.quotas)) m

  -- `Consume` with no other call between its two locks.
  unfoldable pub consume : RangeOrder → Manager → QuotaScope → String → Int64 → Result Manager
  consume range m scope resource amount = elim (consume_check range m scope resource amount) [
    | err e ↦ err e
    | ok u ↦ ok (consume_commit range m scope resource amount)
  ]

-- `if usage < 0 { usage = 0 }`
unfoldable pub floor_zero : Int64 → Int64
floor_zero n = if ltb n zero_i64 then zero_i64 else n

unfoldable pub release_quota : QuotaScope → String → Int64 → String → Manager → Manager
release_quota scope resource amount key m = elim (applicable m scope resource key) [
  | none ↦ m
  | some (quota, limit) ↦
      if has key m.usage
      then set_used key resource (floor_zero (sub_i64 (used m key resource) amount)) m
      else m
]

-- `Release`; it returns no error.
unfoldable pub release : RangeOrder → Manager → QuotaScope → String → Int64 → Manager
unfolding for_keys
release range m scope resource amount =
    for_keys (release_quota scope resource amount) (range 0 (keys m.quotas)) m

unfoldable pub get_usage : Manager → String → Result (Map Int64)
get_usage m name = elim (lookup name m.usage) [
  | none ↦ err quota_not_found
  | some of_key ↦ ok of_key
]

unfoldable pub set_enforcement_mode : String → Manager → Manager
set_enforcement_mode mode m = record m { enforcement_mode = mode }

unfoldable pub reset_usage : Manager → String → Result Manager
reset_usage m name =
    if has name m.quotas
    then ok (record m { usage = insert name [] m.usage })
    else err quota_not_found

unfoldable pub set_usage : Manager → String → String → Int64 → Result Manager
set_usage m name resource n =
    if has name m.quotas then ok (set_used name resource n m) else err quota_not_found
