-- ===== src/Quota/Usage/Accounting.antt =====
-- internal/quota/manager.go: `Consume` and `Release` against an account of the usage by key and
-- resource.
use platformfoundry_ce.Base.{
  ℕ, String, ◌≡◌, sym, ◌∙◌, Bool, true, false, ◌&&◌, some, ◌≤◌, arith, if◌then◌else◌, ◌==◌, eq_iff,
  eq_refl, Bool-cases, contains, Distinct, Distinct-perm, contains-perm, ◌∈◌,
}
use mathlib.Core.List.Perm
use platformfoundry_ce.Base.Int64.{Int64, add_i64}
use platformfoundry_ce.Base.Maps.{has, keys, contains-keys, RangeOrder, VisitsAll}
use platformfoundry_ce.Quota.Types.{
  QuotaScope, QuotaCheckResult, ResourceQuota, Result, ok, err, quota_exceeded,
  enforcement_mode_enforce,
}
use platformfoundry_ce.Quota.Manager.{Manager, used, applicable}
use platformfoundry_ce.Quota.Manager.Limits.{
  exceeds, exceeds-some, Judges, allows, refuses, check-Judges,
}
use platformfoundry_ce.Quota.Usage.{consume_quota, consume_check, consume_commit, consume}
use platformfoundry_ce.Quota.Usage.Frame.{
  IsSameSetup, applies, used-consume_quota, consume_quota-IsSameSetup,
}
use platformfoundry_ce.Quota.Usage.Loops.{
  used-for_keys, for_keys-IsSameSetup, applicable-same, applies-some, applies-same, applies-has,
}

-- The usage of `resource` by each quota that counts it in the scope is changed; no other usage, no
-- quota and no setting is.
pub record IsCounted (change : Int64 → Int64) (m m' : Manager) (scope : QuotaScope)
    (resource : String) : Type 0 where
  pub setup : IsSameSetup m m'
  pub entries :
      (k r : String)
      → used m' k r
        ≡ (if resource == r && applies m scope resource k then change (used m k r) else used m k r)

-- No quota that counts the resource in the scope is over its limit.
abbrev pub IsWithin : Manager → QuotaScope → String → Type 0
IsWithin m scope resource =
    (k : String) (quota : ResourceQuota) (limit : Int64)
    → applicable m scope resource k ≡ some (quota, limit)
    → used m k resource ≤ limit

pub range-contains :
    (range : RangeOrder) (n : ℕ) (m : Manager) (k : String)
    → VisitsAll range
    → contains (range n (keys m.quotas)) k ≡ has k m.quotas
range-contains range n m k visits =
    let there =
      contains-perm (range n (keys m.quotas)) (keys m.quotas) k (visits n (keys m.quotas)) in
    let back =
      contains-perm (keys m.quotas) (range n (keys m.quotas)) k
        (Perm.symm (visits n (keys m.quotas))) in
    ground (arith, contains-keys m.quotas k, Bool-cases (contains (range n (keys m.quotas)) k))

module _ (reaches : Int64 → Int64 → Int64 → Bool) (range : RangeOrder) (visits : VisitsAll range)
    (m : Manager) (keys_distinct : Distinct (keys m.quotas)) (scope : QuotaScope)
    (resource : String) (amount : Int64) where
  pub consume_commit-IsCounted :
      IsCounted
        (λ n. add_i64 n amount)
        m
        (consume_commit reaches range m scope resource amount)
        scope
        resource
  unfolding consume_commit
  consume_commit-IsCounted = record {
    setup =
        for_keys-IsSameSetup _ (consume_quota-IsSameSetup reaches scope resource amount)
          (range 1 (keys m.quotas)) m;
    entries = λ k r.
        used-for_keys (consume_quota reaches scope resource amount)
          (λ m k. applies m scope resource k) (λ n. add_i64 n amount) resource
          (λ key m k.
            applies-same m _ scope resource k
              (consume_quota-IsSameSetup reaches scope resource amount key m).quotas)
          (λ key m k r.
            used-consume_quota reaches scope resource amount key m k r
            ∙ ground (arith, eq_iff key k))
          _ m k r (Distinct-perm _ _ (Perm.symm (visits 1 _)) keys_distinct)
        ∙ ground (arith, range-contains range 1 m k visits, applies-has m scope resource k);
  }

  -- The accounts that `Consume` leaves, by outcome.
  pub data ConsumeOutcome : Result Manager → Type 0 where
    consumed :
        (m' : Manager)
        → IsCounted (λ n. add_i64 n amount) m m' scope resource
        → (m.enforcement_mode ≡ enforcement_mode_enforce → IsWithin m' scope resource)
        → ConsumeOutcome (ok m')
    refused :
        (k : String)
        → m.enforcement_mode ≡ enforcement_mode_enforce
        → k ∈ keys m.quotas
        → exceeds m scope resource amount k ≡ true
        → ConsumeOutcome (err (quota_exceeded (some k)))

  within :
      (m' : Manager)
      → IsCounted (λ n. add_i64 n amount) m m' scope resource
      → ((k : String) → k ∈ keys m.quotas → exceeds m scope resource amount k ≡ false)
      → IsWithin m' scope resource
  within m' counted fits k quota limit e =
      let before = sym (applicable-same m m' scope resource k counted.setup.quotas) ∙ e in
      let hit = applies-some m scope resource k before in
      let there = contains-keys m.quotas k ∙ applies-has m scope resource k hit in
      ground (
        arith,
        counted.entries k resource,
        eq_refl resource,
        exceeds-some reaches m scope resource amount k before,
        fits k there,
      )

  consume_result :
      (result : QuotaCheckResult)
      → Judges m scope resource amount (range 0 (keys m.quotas)) result
      → ConsumeOutcome (
          let answer : Result (Unit {0}) =
            if result.allowed then ok tt else err (quota_exceeded result.exceeded_quota) in
          elim answer [
            | err e ↦ err e
            | ok u ↦ ok (consume_commit reaches range m scope resource amount)
          ])
  consume_result result (allows _ allowed fits) = rw allowed (
      consumed _ consume_commit-IsCounted λ mode.
        within _ consume_commit-IsCounted
          λ k there. fits mode k (contains-perm _ _ k (Perm.symm (visits 0 _)) there))
  consume_result result (refuses _ k denied name mode there over) =
      rw (denied, name) (refused k mode (contains-perm _ _ k (visits 0 _) there) over)

  -- For every order in which Go visits the map, and quotas with distinct names: `Consume` either
  -- adds the amount to the usage of the resource by each quota that counts it in the scope, changes
  -- no other usage, no quota and no setting, and in the mode that enforces leaves all of these
  -- quotas within their limits; or
  -- it returns the error with a quota that the amount would bring over its limit, which happens
  -- only in that mode.
  pub consume_cases : ConsumeOutcome (consume reaches range m scope resource amount)
  unfolding consume consume_check
  consume_cases = consume_result _ (check-Judges reaches m scope resource amount range)
