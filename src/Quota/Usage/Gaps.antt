-- ===== src/Quota/Usage/Gaps.antt =====
-- internal/quota/manager.go: what the check of `Consume` does not hold off.
use platformfoundry_ce.Base.{
  String, ◌≡◌, refl, sym, subst, ◌∙◌, inl, inr, Bool, true, false, some, List, ◌≤◌, ◌<◌, ◌+◌, arith,
  eq_refl, Option-cases, Distinct,
}
use platformfoundry_ce.Base.Int64.{Int64, zero_i64, add_i64}
use platformfoundry_ce.Base.Maps.{keys, RangeOrder, VisitsAll}
use platformfoundry_ce.Quota.Types.{QuotaScope, QuotaCheckResult, ResourceQuota, ok}
use platformfoundry_ce.Quota.Manager.{Manager, used, applicable}
use platformfoundry_ce.Quota.Manager.Limits.{
  exceeds, exceeds-some, exceeds-none, Judges, allows, refuses, check-Judges,
}
use platformfoundry_ce.Quota.Usage.{consume_check, consume_commit, consume}
use platformfoundry_ce.Quota.Usage.Frame.{applies}
use platformfoundry_ce.Quota.Usage.Loops.{applies-same, applies-some, applies_found}
use platformfoundry_ce.Quota.Usage.Invariant.{IsWellFormed}
use platformfoundry_ce.Quota.Usage.Accounting.{IsCounted, consume_commit-IsCounted}

module _ (reaches : Int64 → Int64 → Int64 → Bool) (range : RangeOrder) (m : Manager)
    (scope : QuotaScope) (resource : String) (amount : Int64) where
  judged_ok :
      (ks : List String) (result : QuotaCheckResult)
      → Judges m scope resource amount ks result
      → ((k : String) → exceeds m scope resource amount k ≡ false)
      → result.allowed ≡ true
  judged_ok ks result (allows _ allowed _) fits = allowed
  judged_ok ks result (refuses _ k denied name mode there over) fits = ground (arith, fits k)

  pub consume_check_ok :
      ((k : String) → exceeds m scope resource amount k ≡ false)
      → consume_check reaches range m scope resource amount ≡ ok tt
  unfolding consume_check
  consume_check_ok fits =
      rw (judged_ok _ _ (check-Judges reaches m scope resource amount range) fits) refl

  pub consume_checked :
      consume_check reaches range m scope resource amount ≡ ok tt
      → consume reaches range m scope resource amount
        ≡ ok (consume_commit reaches range m scope resource amount)
  unfolding consume
  consume_checked e = rw (e, consume) refl

counted_at :
    (change : Int64 → Int64) (m m' : Manager) (scope : QuotaScope) (resource k : String)
    → IsCounted change m m' scope resource
    → applies m scope resource k ≡ true
    → used m' k resource ≡ change (used m k resource)
counted_at change m m' scope resource k counted hit =
    ground (arith, counted.entries k resource, eq_refl resource)

-- Two callers of `Consume` whose amounts each fit, in a well-formed state: if both have made their
-- check before either takes the write lock, both checks allow, and both amounts are counted. A
-- quota whose limit the two together pass is then over its limit, whatever the enforcement mode.
pub two_consumes_overshoot :
    (reaches : Int64 → Int64 → Int64 → Bool) (range : RangeOrder) (visits : VisitsAll range)
    (m : Manager) (well : IsWellFormed m) (scope : QuotaScope) (resource : String) (a b : Int64)
    (k : String) (quota : ResourceQuota) (limit : Int64)
    → ((k : String) → exceeds m scope resource a k ≡ false)
    → ((k : String) → exceeds m scope resource b k ≡ false)
    → applicable m scope resource k ≡ some (quota, limit)
    → limit < add_i64 (add_i64 (used m k resource) a) b
    → (consume_check reaches range m scope resource a ≡ ok tt)
      × (consume_check reaches range m scope resource b ≡ ok tt)
      × (limit
          < used
              (consume_commit reaches range
                (consume_commit reaches range m scope resource a)
                scope
                resource
                b)
              k
              resource)
two_consumes_overshoot reaches range visits m well scope resource a b k quota limit fits_a fits_b e
      over =
    let m1 = consume_commit reaches range m scope resource a in
    let first =
      consume_commit-IsCounted reaches range visits m well.keys_distinct scope resource a in
    let distinct1 =
      subst (λ quotas. Distinct (keys quotas)) (sym first.setup.quotas) well.keys_distinct in
    let second = consume_commit-IsCounted reaches range visits m1 distinct1 scope resource b in
    let hit = applies-some m scope resource k e in
    let hit1 = applies-same m m1 scope resource k first.setup.quotas ∙ hit in
    (
      consume_check_ok reaches range m scope resource a fits_a,
      consume_check_ok reaches range m scope resource b fits_b,
      rw
          (
            counted_at _ m1 _ scope resource k second hit1,
            counted_at _ m m1 scope resource k first hit,
          )
          over,
    )

-- The usage of the resource by each quota that counts it in the scope, and the limit, are not
-- negative, and the amount takes each sum past the largest int64.
abbrev pub AllWrap : Manager → QuotaScope → String → Int64 → Type 0
AllWrap m scope resource amount =
    (k : String) (quota : ResourceQuota) (limit : Int64)
    → applicable m scope resource k ≡ some (quota, limit)
    → (zero_i64 ≤ limit)
      × (used m k resource < 18446744073709551616)
      × (amount < 18446744073709551616)
      × (27670116110564327424 ≤ used m k resource + amount)

add_i64_negative :
    (n amount : Int64)
    → n < 18446744073709551616
    → amount < 18446744073709551616
    → 27670116110564327424 ≤ n + amount
    → add_i64 n amount < zero_i64
unfolding add_i64
add_i64_negative n amount h k over = omega arith

-- Where the sum of usage and amount passes the largest int64 in each quota that counts the
-- resource, no usage or limit being negative, in a well-formed state: `Consume` succeeds in
-- every enforcement mode, and all these quotas have a negative usage.
pub consume_wraps :
    (reaches : Int64 → Int64 → Int64 → Bool) (range : RangeOrder) (visits : VisitsAll range)
    (m : Manager) (well : IsWellFormed m) (scope : QuotaScope) (resource : String) (amount : Int64)
    → AllWrap m scope resource amount
    → (m' : Manager) × (consume reaches range m scope resource amount ≡ ok m')
      × ((k : String) → applies m scope resource k ≡ true → used m' k resource < zero_i64)
consume_wraps reaches range visits m well scope resource amount wraps =
    let fits : (k : String) → exceeds m scope resource amount k ≡ false = λ k.
      elim (Option-cases (applicable m scope resource k)) [
        | inl e ↦ exceeds-none reaches m scope resource amount k e
        | inr ((quota, limit), e) ↦
            let (from_zero, small, small', over) = wraps k quota limit e in
            exceeds-some reaches m scope resource amount k e
            ∙ ground (arith, add_i64_negative (used m k resource) amount small small' over)
      ] in
    let counted =
      consume_commit-IsCounted reaches range visits m well.keys_distinct scope resource amount in
    (
      consume_commit reaches range m scope resource amount,
      consume_checked reaches range m scope resource amount
          (consume_check_ok reaches range m scope resource amount fits),
      λ k hit.
          let (quota, limit, e) = applies_found m scope resource k hit in
          let (from_zero, small, small', over) = wraps k quota limit e in
          rw (counted_at _ m _ scope resource k counted hit)
            (add_i64_negative (used m k resource) amount small small' over),
    )
