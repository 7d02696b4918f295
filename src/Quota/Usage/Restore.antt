-- ===== src/Quota/Usage/Restore.antt =====
-- internal/quota/manager.go: `Release` takes back what `Consume` has counted.
use platformfoundry_ce.Base.{String, ◌≡◌, subst, ◌∙◌, Bool, ◌&&◌, ◌≤◌, arith, Distinct-perm}
use mathlib.Core.List.Perm
use platformfoundry_ce.Base.Int64.{Int64, IsInt64, zero_i64, add_i64, sub_i64, sub_i64-add_i64}
use platformfoundry_ce.Base.Maps.{has, keys, RangeOrder, VisitsAll}
use platformfoundry_ce.Quota.Types.{QuotaScope, ok}
use platformfoundry_ce.Quota.Manager.{Manager, used}
use platformfoundry_ce.Quota.Usage.{consume_commit, consume, floor_zero, release_quota, release}
use platformfoundry_ce.Quota.Usage.Frame.{IsSameSetup, applies}
use platformfoundry_ce.Quota.Usage.Loops.{
  used-for_keys, for_keys-IsSameSetup, applies-same, applies-has, release_quota-IsSameSetup,
  used-release_quota, has-release_quota,
}
use platformfoundry_ce.Quota.Usage.Invariant.{IsWellFormed, committed, Step-IsWellFormed}
use platformfoundry_ce.Quota.Usage.Accounting.{IsCounted, range-contains, consume_commit-IsCounted}

module _ (range : RangeOrder) (visits : VisitsAll range) (m : Manager) (well : IsWellFormed m)
    (scope : QuotaScope) (resource : String) (amount : Int64) where
  -- For every order in which Go visits the map: `Release` in a well-formed state takes the amount
  -- from the usage of the resource by each quota that counts it in the scope, down to 0 and no
  -- further, and changes no other usage, no quota and no setting.
  pub release-IsCounted :
      IsCounted
        (λ n. floor_zero (sub_i64 n amount))
        m
        (release range m scope resource amount)
        scope
        resource
  unfolding release
  release-IsCounted = record {
    setup =
        for_keys-IsSameSetup _ (release_quota-IsSameSetup scope resource amount)
          (range 0 (keys m.quotas)) m;
    entries = λ k r.
        used-for_keys (release_quota scope resource amount)
          (λ m k. applies m scope resource k && has k m.usage) (λ n. floor_zero (sub_i64 n amount))
          resource
          (λ key m k. ground (
            arith,
            applies-same m (release_quota scope resource amount key m) scope resource k
                (release_quota-IsSameSetup scope resource amount key m).quotas,
            has-release_quota scope resource amount key m k,
          ))
          (λ key m k r. used-release_quota scope resource amount key m k r) _ m k r
          (Distinct-perm _ _ (Perm.symm (visits 0 _)) well.keys_distinct)
        ∙ ground (
          arith,
          range-contains range 0 m k visits,
          applies-has m scope resource k,
          well.entries k,
        );
  }

floor-sub-add :
    (n amount : Int64)
    → IsInt64 n
    → IsInt64 amount
    → zero_i64 ≤ n
    → floor_zero (sub_i64 (add_i64 n amount) amount) ≡ n
unfolding floor_zero
floor-sub-add n amount h k pos = rw (sub_i64-add_i64 n amount h k) (ground arith)

consume_ok :
    (reaches : Int64 → Int64 → Int64 → Bool) (range : RangeOrder) (m m' : Manager)
    (scope : QuotaScope) (resource : String) (amount : Int64)
    → consume reaches range m scope resource amount ≡ ok m'
    → consume_commit reaches range m scope resource amount ≡ m'
unfolding consume
consume_ok reaches range m m' scope resource amount e = ground arith

-- For every order in which Go visits the map: a `Release` that follows a `Consume` of the same
-- amount that succeeded, in a well-formed state in which no usage is negative, leaves all quotas and
-- their usage as they were before both.
pub release-consume :
    (reaches : Int64 → Int64 → Int64 → Bool) (range range' : RangeOrder) (visits : VisitsAll range)
    (visits' : VisitsAll range') (m m' : Manager) (well : IsWellFormed m) (scope : QuotaScope)
    (resource : String) (amount : Int64)
    → IsInt64 amount
    → ((k r : String) → IsInt64 (used m k r) × (zero_i64 ≤ used m k r))
    → consume reaches range m scope resource amount ≡ ok m'
    → IsSameSetup m (release range' m' scope resource amount)
      × ((k r : String) → used (release range' m' scope resource amount) k r ≡ used m k r)
release-consume reaches range range' visits visits' m m' well scope resource amount fits from_zero
      e =
    let same = consume_ok reaches range m m' scope resource amount e in
    let well' =
      subst IsWellFormed same
        (Step-IsWellFormed reaches (committed range scope resource amount) well) in
    let taken =
      subst (λ m'. IsCounted (λ n. add_i64 n amount) m m' scope resource) same
        (consume_commit-IsCounted reaches range visits m well.keys_distinct scope resource
          amount) in
    let back = release-IsCounted range' visits' m' well' scope resource amount in
    (
      record {
        quotas = back.setup.quotas ∙ taken.setup.quotas;
        mode = back.setup.mode ∙ taken.setup.mode;
        handler = back.setup.handler ∙ taken.setup.handler;
      },
      λ k r. ground (
        arith,
        back.entries k r,
        taken.entries k r,
        applies-same m m' scope resource k taken.setup.quotas,
        floor-sub-add (used m k r) amount (from_zero k r).0 fits (from_zero k r).1,
      ),
    )
