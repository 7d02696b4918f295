-- ===== src/Quota/Manager/Limits.antt =====
-- internal/quota/manager.go: what `Check` decides.
use platformfoundry_ce.Base.{
  String, ◌≡◌, refl, ◌∙◌, inl, inr, Bool, true, false, not, none, some, List, [], ◌∷◌, arith, ◌==◌,
  eq_iff, Bool-cases, Option-cases, ltb, ◌∈◌, eq_refl,
}
use platformfoundry_ce.Base.Int64.{Int64, add_i64}
use platformfoundry_ce.Base.Maps.{keys, RangeOrder}
use platformfoundry_ce.Quota.Types.{
  QuotaScope, QuotaCheckResult, ResourceQuota, enforcement_mode_enforce,
}
use platformfoundry_ce.Quota.Manager.{
  Manager, used, applicable, check_quota, check_from, check, Round, return, continue,
}

-- The quota named by `key` counts this resource in this scope, and the request passes its limit.
unfoldable pub exceeds : Manager → QuotaScope → String → Int64 → String → Bool
exceeds m scope resource requested key = elim (applicable m scope resource key) [
  | none ↦ false
  | some (quota, limit) ↦ ltb limit (add_i64 (used m key resource) requested)
]

-- A check refuses only in the mode that enforces, and only for a quota that is exceeded; it allows
-- in that mode only if none is.
pub data Judges (m : Manager) (scope : QuotaScope) (resource : String) (requested : Int64)
    (ks : List String) : QuotaCheckResult → Type 0 where
  allows :
      (r : QuotaCheckResult)
      → r.allowed ≡ true
      → (m.enforcement_mode ≡ enforcement_mode_enforce
          → (k : String) → k ∈ ks
          → exceeds m scope resource requested k ≡ false)
      → Judges m scope resource requested ks r
  refuses :
      (r : QuotaCheckResult) (k : String)
      → r.allowed ≡ false
      → r.exceeded_quota ≡ some k
      → m.enforcement_mode ≡ enforcement_mode_enforce
      → k ∈ ks
      → exceeds m scope resource requested k ≡ true
      → Judges m scope resource requested ks r

module _ (reaches : Int64 → Int64 → Int64 → Bool) (m : Manager) (scope : QuotaScope)
    (resource : String) (requested : Int64) where
  abbrev Goes : String → QuotaCheckResult → Round → Type 0
  Goes key result (return r) =
      (exceeds m scope resource requested key ≡ true)
      × (r.allowed ≡ not (m.enforcement_mode == enforcement_mode_enforce))
      × (r.exceeded_quota ≡ some key)
  Goes key result (continue r) =
      (exceeds m scope resource requested key ≡ false) × (r.allowed ≡ result.allowed)

  pub exceeds-none :
      (key : String)
      → applicable m scope resource key ≡ none
      → exceeds m scope resource requested key ≡ false
  unfolding exceeds
  exceeds-none key e = rw (e, exceeds)

  pub exceeds-some :
      (key : String) {quota : ResourceQuota} {limit : Int64}
      → applicable m scope resource key ≡ some (quota, limit)
      → exceeds m scope resource requested key ≡ ltb limit (add_i64 (used m key resource) requested)
  unfolding exceeds
  exceeds-some key e = rw (e, exceeds)

  check_quota-Goes :
      (key : String) (result : QuotaCheckResult)
      → Goes key result (check_quota reaches m scope resource requested key result)
  unfolding check_quota
  check_quota-Goes key result = elim (Option-cases (applicable m scope resource key)) [
    | inl e ↦ rw (e, check_quota) (exceeds-none key e, refl)
    | inr ((quota, limit), e) ↦
        elim (Bool-cases (ltb limit (add_i64 (used m key resource) requested))) [
          | inl over ↦ rw (e, over, check_quota) (exceeds-some key e ∙ over, refl, refl)
          | inr fits ↦ rw (e, fits, check_quota) (exceeds-some key e ∙ fits, refl)
        ]
  ]

  more :
      (key : String) (ks : List String) (r : QuotaCheckResult)
      → exceeds m scope resource requested key ≡ false
      → Judges m scope resource requested ks r
      → Judges m scope resource requested (key ∷ ks) r
  more key ks r fits (allows _ allowed none_exceeded) = allows r allowed λ mode k there.
      elim (Bool-cases (key == k)) [
        | inl e ↦ ground (arith, eq_iff key k)
        | inr e ↦ none_exceeded mode k (ground arith)
      ]
  more key ks r fits (refuses _ k refused name mode there over) =
      refuses r k refused name mode (ground arith) over

  here :
      (key : String) (ks : List String) (r : QuotaCheckResult)
      → exceeds m scope resource requested key ≡ true
      → r.allowed ≡ not (m.enforcement_mode == enforcement_mode_enforce)
      → r.exceeded_quota ≡ some key
      → Judges m scope resource requested (key ∷ ks) r
  here key ks r over allowed name =
      elim (Bool-cases (m.enforcement_mode == enforcement_mode_enforce)) [
        | inl e ↦
            refuses r key (ground arith) name ((eq_iff _ _).0 e) (ground (arith, eq_refl key)) over
        | inr e ↦
            allows r (ground arith)
              λ mode. absurd (ground (arith, eq_iff m.enforcement_mode enforcement_mode_enforce))
      ]

  after_round :
      (key : String) (ks : List String) (result : QuotaCheckResult) (round : Round)
      → result.allowed ≡ true
      → Goes key result round
      → ((r : QuotaCheckResult)
          → r.allowed ≡ true
          → Judges m scope resource requested ks
              (check_from reaches m scope resource requested ks r))
      → Judges m scope resource requested (key ∷ ks) (elim round [
        | return r ↦ r
        | continue r ↦ check_from reaches m scope resource requested ks r
      ])
  after_round key ks result (return r) before (over, allowed, name) rest =
      here key ks r over allowed name
  after_round key ks result (continue r) before (fits, allowed) rest =
      more key ks _ fits (rest r (allowed ∙ before))

  check_from-Judges :
      (ks : List String) (result : QuotaCheckResult)
      → result.allowed ≡ true
      → Judges m scope resource requested ks
          (check_from reaches m scope resource requested ks result)
  unfolding check_from
  check_from-Judges [] result before = allows result before λ mode k there. cc
  check_from-Judges (key ∷ ks) result before =
      after_round key ks result _ before (check_quota-Goes key result)
        (λ r h. check_from-Judges ks r h)

  pub check-Judges :
      (range : RangeOrder)
      → Judges m scope resource requested
          (range 0 (keys m.quotas))
          (check reaches range m scope resource requested)
  unfolding check
  check-Judges range = check_from-Judges _ _ refl
