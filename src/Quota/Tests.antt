-- ===== src/Quota/Tests.antt =====
-- A namespace quota for internal/quota/manager.go.
use platformfoundry_ce.Base.{
  ◌≡◌, ◌≢◌, refl, true, false, [], ◌∷◌, String, none, some, ◌≤◌, ◌<◌, arith, Bool, eq_iff,
}
use mathlib.Core.List.Perm
use platformfoundry_ce.Base.Int64.{Int64, IsInt64, i64, zero_i64, add_i64, sub_i64}
use platformfoundry_ce.Base.Maps.{RangeOrder, VisitsAll, keys, has, lookup, insert}
use platformfoundry_ce.Quota.Types.{
  QuotaScope, ResourceQuota, ok, validate, scope_matches, selector_matches,
}
use platformfoundry_ce.Quota.Manager.{
  Manager, used, usage_of, applicable, new_manager, register_quota,
}
use platformfoundry_ce.Quota.Manager.Limits.{exceeds}
use platformfoundry_ce.Quota.Usage.{
  consume_check, consume_commit, consume, release, set_used, set_usage, floor_zero,
}
use platformfoundry_ce.Quota.Usage.Frame.{IsSameSetup, applies}
use platformfoundry_ce.Quota.Usage.Invariant.{
  IsWellFormed, Reached, made, then_step, registered, was_set, Reached-IsWellFormed,
}
use platformfoundry_ce.Quota.Usage.Accounting.{IsCounted, ConsumeOutcome, consume_cases}
use platformfoundry_ce.Quota.Usage.Restore.{release-IsCounted, release-consume}
use platformfoundry_ce.Quota.Usage.Scopes.{applicable-exact}
use platformfoundry_ce.Quota.Usage.Gaps.{
  consume_check_ok, consume_checked, two_consumes_overshoot, consume_wraps, AllWrap,
}

abbrev team : QuotaScope
team = record { type = "namespace"; name = "team-a"; selector = [] }

abbrev pods : ResourceQuota
pods = record {
  name = "team-quota";
  scope = team;
  hard = ("pods", i64 10) ∷ [];
  soft = [];
  alert_policy = none;
}

-- No percentage of a quota with no alert policy is asked for.
abbrev never : Int64 → Int64 → Int64 → Bool
never usage limit percentage = false

abbrev as_listed : RangeOrder
as_listed n ks = ks

as_listed-VisitsAll : VisitsAll as_listed
as_listed-VisitsAll n ks = Perm.refl ks

abbrev empty : Manager
empty = record {
  quotas = ("team-quota", pods) ∷ [];
  usage = ("team-quota", []) ∷ [];
  enforcement_mode = "enforce";
  has_alert_handler = false;
  alerts = [];
}

program : Unit {0}
unfolding keys has lookup insert validate scope_matches selector_matches used usage_of applicable
    new_manager register_quota exceeds consume_check consume release set_used floor_zero applies
    add_i64 sub_i64
program = tt

registered_empty : register_quota (new_manager "" false) pods ≡ ok empty
unfolding program
registered_empty = refl

empty-Reached : Reached never empty
empty-Reached = then_step (made "" false) (registered pods registered_empty)

empty-IsWellFormed : IsWellFormed empty
empty-IsWellFormed = Reached-IsWellFormed never empty-Reached

Reached-IsWellFormed_example : IsWellFormed empty
Reached-IsWellFormed_example = Reached-IsWellFormed never empty-Reached

consume_cases_example :
    ConsumeOutcome never as_listed as_listed-VisitsAll empty
      (empty-IsWellFormed.keys_distinct)
      team
      "pods"
      (i64 4)
      (consume never as_listed empty team "pods" (i64 4))
consume_cases_example =
    consume_cases never as_listed as_listed-VisitsAll empty (empty-IsWellFormed.keys_distinct) team
      "pods" (i64 4)

release-IsCounted_run :
    IsCounted
      (λ n. floor_zero (sub_i64 n (i64 4)))
      empty
      (release as_listed empty team "pods" (i64 4))
      team
      "pods"
release-IsCounted_run =
    release-IsCounted as_listed as_listed-VisitsAll empty empty-IsWellFormed team "pods" (i64 4)

four_fits : (k : String) → exceeds empty team "pods" (i64 4) k ≡ false
unfolding program
four_fits k = ground arith

empty_usage : (k r : String) → IsInt64 (used empty k r) × (zero_i64 ≤ used empty k r)
unfolding program
empty_usage k r = ground arith

consumed_four :
    consume never as_listed empty team "pods" (i64 4)
    ≡ ok (consume_commit never as_listed empty team "pods" (i64 4))
consumed_four =
    consume_checked never as_listed empty team "pods" (i64 4)
      (consume_check_ok never as_listed empty team "pods" (i64 4) four_fits)

release-consume_example :
    IsSameSetup empty (
      release as_listed
        (consume_commit never as_listed empty team "pods" (i64 4))
        team
        "pods"
        (i64 4))
    × ((k r : String)
        → used
            (release as_listed
              (consume_commit never as_listed empty team "pods" (i64 4))
              team
              "pods"
              (i64 4))
            k
            r
          ≡ used empty k r)
release-consume_example =
    release-consume never as_listed as_listed as_listed-VisitsAll as_listed-VisitsAll empty
      (consume_commit never as_listed empty team "pods" (i64 4)) empty-IsWellFormed team "pods"
      (i64 4) six_bits empty_usage consumed_four
  where
    six_bits : IsInt64 (i64 4)
    six_bits = omega arith

six_fits : (k : String) → exceeds empty team "pods" (i64 6) k ≡ false
unfolding program
six_fits k = ground arith

pods_apply : applicable empty team "pods" "team-quota" ≡ some (pods, i64 10)
unfolding program
pods_apply = refl

six_and_six : i64 10 < add_i64 (add_i64 (used empty "team-quota" "pods") (i64 6)) (i64 6)
unfolding program
six_and_six = omega arith

two_consumes_overshoot_example :
    (consume_check never as_listed empty team "pods" (i64 6) ≡ ok tt)
    × (consume_check never as_listed empty team "pods" (i64 6) ≡ ok tt)
    × (i64 10
        < used
            (consume_commit never as_listed
              (consume_commit never as_listed empty team "pods" (i64 6))
              team
              "pods"
              (i64 6))
            "team-quota"
            "pods")
two_consumes_overshoot_example =
    two_consumes_overshoot never as_listed as_listed-VisitsAll empty empty-IsWellFormed team "pods"
      (i64 6) (i64 6) "team-quota" pods (i64 10) six_fits six_fits pods_apply six_and_six

abbrev busy : Manager
busy = record empty { usage = ("team-quota", ("pods", i64 4) ∷ []) ∷ [] }

set_busy : set_usage empty "team-quota" "pods" (i64 4) ≡ ok busy
unfolding program set_usage
set_busy = refl

busy-IsWellFormed : IsWellFormed busy
busy-IsWellFormed =
    Reached-IsWellFormed never
      (then_step empty-Reached (was_set "team-quota" "pods" (i64 4) set_busy))

busy-AllWrap : AllWrap busy team "pods" (i64 9223372036854775807)
unfolding program
busy-AllWrap k quota limit e = ground (arith, eq_iff "team-quota" k)

consume_wraps_example :
    (m' : Manager) × (consume never as_listed busy team "pods" (i64 9223372036854775807) ≡ ok m')
    × ((k : String) → applies busy team "pods" k ≡ true → used m' k "pods" < zero_i64)
consume_wraps_example =
    consume_wraps never as_listed as_listed-VisitsAll busy busy-IsWellFormed team "pods"
      (i64 9223372036854775807) busy-AllWrap

applicable-exact_example :
    (pods.scope.name ≡ team.name)
    × (pods.scope.type ≡ team.type)
    × (pods.scope.name ≢ "")
    × (lookup "pods" pods.hard ≡ some (i64 10))
applicable-exact_example =
    applicable-exact never empty empty-Reached team "pods" "team-quota" pods (i64 10) pods_apply
