-- ===== src/Quota/Usage/Frame.antt =====
-- internal/quota/manager.go: which entries a call of `Consume` or `Release` touches, and what it
-- leaves there.
use platformfoundry_ce.Base.{
  String, ◌≡◌, refl, ◌∙◌, inl, inr, Bool, true, false, ◌&&◌, none, some, arith, if◌then◌else◌, ◌==◌,
  eq_iff, Bool-cases, Option-cases,
}
use platformfoundry_ce.Base.Int64.{Int64, zero_i64, add_i64}
use platformfoundry_ce.Base.Maps.{lookup, insert, lookup-insert}
use platformfoundry_ce.Quota.Types.{QuotaScope, ResourceQuota}
use platformfoundry_ce.Quota.Manager.{Manager, usage_of, used, applicable}
use platformfoundry_ce.Quota.Usage.{set_used, check_and_trigger_alerts, consume_quota}

-- The quota named by `key` counts this resource in this scope.
unfoldable pub applies : Manager → QuotaScope → String → String → Bool
applies m scope resource key = elim (applicable m scope resource key) [
  | none ↦ false
  | some found ↦ true
]

used_lem :
    (m : Manager) (k r : String)
    → used m k r ≡ (elim (lookup r (usage_of m k)) [ none ↦ zero_i64 | some n ↦ n ])
unfolding used
used_lem m k r = refl

used_same : (m' m : Manager) (k r : String) → m'.usage ≡ m.usage → used m' k r ≡ used m k r
unfolding used
used_same m' m k r e = unfold usage_of in rw e refl

usage_of-set_used :
    (key resource : String) (n : Int64) (m : Manager) (k : String)
    → usage_of (set_used key resource n m) k
      ≡ (if key == k then insert resource n (usage_of m key) else usage_of m k)
unfolding usage_of set_used
usage_of-set_used key resource n m k =
    ground (arith, lookup-insert key k (insert resource n (usage_of m key)) m.usage)

pub used-set_used :
    (key resource : String) (n : Int64) (m : Manager) (k r : String)
    → used (set_used key resource n m) k r ≡ (if key == k && resource == r then n else used m k r)
used-set_used key resource n m k r = elim (Bool-cases (key == k)) [
  | inr e ↦ ground (
    arith,
    usage_of-set_used key resource n m k,
    used_lem m k r,
    used_lem (set_used key resource n m) k r,
  )
  | inl e ↦ ground (
    arith,
    usage_of-set_used key resource n m k,
    lookup-insert resource r n (usage_of m key),
    eq_iff key k,
    eq_iff resource r,
    used_lem m k r,
    used_lem (set_used key resource n m) k r,
  )
]

-- What no call of `Consume` or `Release` changes.
pub record IsSameSetup (m m' : Manager) : Type 0 where
  pub quotas : m'.quotas ≡ m.quotas
  pub mode : m'.enforcement_mode ≡ m.enforcement_mode
  pub handler : m'.has_alert_handler ≡ m.has_alert_handler

module _ (reaches : Int64 → Int64 → Int64 → Bool) where
  pub alerts_frame :
      (key : String) (quota : ResourceQuota) (resource : String) (limit : Int64) (m : Manager)
      → IsSameSetup m (check_and_trigger_alerts reaches key quota resource limit m)
        × ((check_and_trigger_alerts reaches key quota resource limit m).usage ≡ m.usage)
  unfolding check_and_trigger_alerts
  alerts_frame key quota resource limit m = (ground arith, ground arith)

  pub consume_quota-IsSameSetup :
      (scope : QuotaScope) (resource : String) (amount : Int64) (key : String) (m : Manager)
      → IsSameSetup m (consume_quota reaches scope resource amount key m)
  unfolding consume_quota set_used
  consume_quota-IsSameSetup scope resource amount key m =
      elim (Option-cases (applicable m scope resource key)) [
        | inl e ↦ rw (e, consume_quota) (record { quotas = refl; mode = refl; handler = refl })
        | inr ((quota, limit), e) ↦
            let m' = set_used key resource (add_i64 (used m key resource) amount) m in
            let same = (alerts_frame key quota resource limit m').0 in
            rw (e, consume_quota)
              (record { quotas = same.quotas; mode = same.mode; handler = same.handler })
      ]

  pub used-consume_quota :
      (scope : QuotaScope) (resource : String) (amount : Int64) (key : String) (m : Manager)
      (k r : String)
      → used (consume_quota reaches scope resource amount key m) k r ≡ (
          if (key == k && resource == r) && applies m scope resource key
          then add_i64 (used m k r) amount
          else used m k r)
  unfolding consume_quota applies
  used-consume_quota scope resource amount key m k r =
      elim (Option-cases (applicable m scope resource key)) [
        | inl e ↦ rw (e, consume_quota, applies) (ground arith)
        | inr ((quota, limit), e) ↦
            let m' = set_used key resource (add_i64 (used m key resource) amount) m in
            rw (e, consume_quota, applies)
              (used_same (check_and_trigger_alerts reaches key quota resource limit m') m' k r
                  (alerts_frame key quota resource limit m').1
                ∙ ground (
                  arith,
                  used-set_used key resource (add_i64 (used m key resource) amount) m k r,
                  eq_iff key k,
                  eq_iff resource r,
                ))
      ]
