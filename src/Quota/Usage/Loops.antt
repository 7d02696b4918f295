-- ===== src/Quota/Usage/Loops.antt =====
-- internal/quota/manager.go: what the loops of `Consume` and `Release` over all quotas do.
use platformfoundry_ce.Base.{
  String, ◌≡◌, refl, sym, ap, ◌∙◌, inl, inr, Bool, true, false, ◌&&◌, none, some, some, List, [],
  ◌∷◌, arith, if◌then◌else◌, ◌==◌, eq_iff, Bool-cases, Option-cases, contains, Distinct,
}
use platformfoundry_ce.Base.Int64.{Int64, sub_i64}
use platformfoundry_ce.Base.Maps.{has, insert, has-insert}
use platformfoundry_ce.Quota.Types.{QuotaScope, ResourceQuota}
use platformfoundry_ce.Quota.Manager.{Manager, usage_of, used, applicable}
use platformfoundry_ce.Quota.Usage.{set_used, for_keys, floor_zero, release_quota}
use platformfoundry_ce.Quota.Usage.Frame.{IsSameSetup, applies, used-set_used}

-- A round works on the entry of its own key and resource, and only if it hits.
module _ (round : String → Manager → Manager) (hit : Manager → String → Bool)
    (change : Int64 → Int64) (resource : String)
    (keeps : (key : String) (m : Manager) (k : String) → hit (round key m) k ≡ hit m k)
    (effect : (key : String) (m : Manager) (k r : String)
      → used (round key m) k r ≡ (
          if (key == k && resource == r) && hit m k then change (used m k r) else used m k r)) where
  pub used-for_keys :
      (ks : List String) (m : Manager) (k r : String)
      → Distinct ks
      → used (for_keys round ks m) k r
        ≡ (if (contains ks k && resource == r) && hit m k then change (used m k r) else used m k r)
  unfolding for_keys
  used-for_keys [] m k r distinct = refl
  used-for_keys (key ∷ ks) m k r distinct = elim (Bool-cases (key == k)) [
    | inl e ↦
        let same = (eq_iff key k).0 e in
        let out : contains ks k ≡ false = ap (contains ks) (sym same) ∙ distinct.0 in
        used-for_keys ks (round key m) k r distinct.1
        ∙ rw (out, e) (ground (arith, effect key m k r))
    | inr e ↦ used-for_keys ks (round key m) k r distinct.1 ∙ rw (e, keeps, effect) (rw e refl)
  ]

module _ (round : String → Manager → Manager)
    (same : (key : String) (m : Manager) → IsSameSetup m (round key m)) where
  pub for_keys-IsSameSetup : (ks : List String) (m : Manager) → IsSameSetup m (for_keys round ks m)
  unfolding for_keys
  for_keys-IsSameSetup [] m = record { quotas = refl; mode = refl; handler = refl }
  for_keys-IsSameSetup (key ∷ ks) m =
      let first = same key m in
      let rest = for_keys-IsSameSetup ks (round key m) in
      record {
        quotas = rest.quotas ∙ first.quotas;
        mode = rest.mode ∙ first.mode;
        handler = rest.handler ∙ first.handler;
      }

pub applicable-same :
    (m m' : Manager) (scope : QuotaScope) (resource key : String)
    → m'.quotas ≡ m.quotas
    → applicable m' scope resource key ≡ applicable m scope resource key
unfolding applicable
applicable-same m m' scope resource key e = rw e refl

pub applies-some :
    (m : Manager) (scope : QuotaScope) (resource key : String) {found : ResourceQuota × Int64}
    → applicable m scope resource key ≡ some found
    → applies m scope resource key ≡ true
unfolding applies
applies-some m scope resource key e = rw (e, applies)

applies-none :
    (m : Manager) (scope : QuotaScope) (resource key : String)
    → applicable m scope resource key ≡ none
    → applies m scope resource key ≡ false
unfolding applies
applies-none m scope resource key e = rw (e, applies)

pub applies_found :
    (m : Manager) (scope : QuotaScope) (resource key : String)
    → applies m scope resource key ≡ true
    → (quota : ResourceQuota) × (limit : Int64) × (applicable m scope resource key
        ≡ some (quota, limit))
applies_found m scope resource key h = elim (Option-cases (applicable m scope resource key)) [
  | inl e ↦ absurd (ground (arith, applies-none m scope resource key e))
  | inr ((quota, limit), e) ↦ (quota, limit, e)
]

pub applies-same :
    (m m' : Manager) (scope : QuotaScope) (resource key : String)
    → m'.quotas ≡ m.quotas
    → applies m' scope resource key ≡ applies m scope resource key
unfolding applies
applies-same m m' scope resource key e = unfold applicable in rw e refl

pub applies-has :
    (m : Manager) (scope : QuotaScope) (resource key : String)
    → applies m scope resource key ≡ true
    → has key m.quotas ≡ true
unfolding applies has
applies-has m scope resource key h = unfold applicable in ground arith

pub release_quota-IsSameSetup :
    (scope : QuotaScope) (resource : String) (amount : Int64) (key : String) (m : Manager)
    → IsSameSetup m (release_quota scope resource amount key m)
unfolding release_quota set_used
release_quota-IsSameSetup scope resource amount key m = ground arith

pub used-release_quota :
    (scope : QuotaScope) (resource : String) (amount : Int64) (key : String) (m : Manager)
    (k r : String)
    → used (release_quota scope resource amount key m) k r ≡ (
        if (key == k && resource == r) && (applies m scope resource k && has k m.usage)
        then floor_zero (sub_i64 (used m k r) amount)
        else used m k r)
used-release_quota scope resource amount key m k r =
    elim (Option-cases (applicable m scope resource key)) [
      | inl e ↦ unfold release_quota applies in rw (e, release_quota) (ground (arith, eq_iff key k))
      | inr ((quota, limit), e) ↦
          let n = floor_zero (sub_i64 (used m key resource) amount) in
          unfold release_quota applies in
          rw (e, release_quota)
            (ground (arith, used-set_used key resource n m k r, eq_iff key k, eq_iff resource r))
    ]

pub has-release_quota :
    (scope : QuotaScope) (resource : String) (amount : Int64) (key : String) (m : Manager)
    (k : String)
    → has k (release_quota scope resource amount key m).usage ≡ has k m.usage
unfolding release_quota set_used
has-release_quota scope resource amount key m k =
    elim (Option-cases (applicable m scope resource key)) [
      | inl e ↦ rw (e, release_quota)
      | inr ((quota, limit), e) ↦
          let n = floor_zero (sub_i64 (used m key resource) amount) in
          rw (e, release_quota)
            (ground
              (arith, has-insert key k (insert resource n (usage_of m key)) m.usage, eq_iff key k))
    ]
