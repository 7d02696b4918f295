-- ===== src/Jit/Gaps.antt =====
-- internal/rbac/jit.go: what the timers and the policies do not keep to.
use platformfoundry_ce.Base.{
  suc, ◌≤◌, ◌<◌, String, ◌≡◌, refl, ap, ◌∙◌, inl, inr, Bool, true, false, ◌&&◌, ◌||◌, some, List,
  [], ◌∷◌, ◌++◌, arith, if◌then◌else◌, ◌==◌, eq_refl, Bool-cases, leb, contains,
}
use mathlib.Core.List.{append_assoc}
use platformfoundry_ce.Base.Int64.{Int64, zero_i64}
use platformfoundry_ce.Base.Maps.{lookup, insert, delete, has, lookup-insert, lookup-delete}
use platformfoundry_ce.Jit.Manager.{
  Time, Grant, Timer, done, Manager, extend_access, end_grant, schedule_revocation, drop_grant,
  extensions_used_up, add_time, Policy, match_pattern, policy_matches, role_matches,
}

if_true {ℓ} : {A : Type ℓ} (b : Bool) (x y : A) → b ≡ true → (if b then x else y) ≡ x
if_true b x y e = rw e refl

if_false {ℓ} : {A : Type ℓ} (b : Bool) (x y : A) → b ≡ false → (if b then x else y) ≡ y
if_false b x y e = rw e refl

abbrev longer : Grant → Int64 → Grant
longer g additional = record g {
  expires_at = add_time g.expires_at additional;
  extend_count = suc g.extend_count;
}

abbrev extended : Manager → Time → String → Grant → Int64 → Manager
extended m now k g additional =
    schedule_revocation now (longer g additional)
      (record m { active_grants = insert k (longer g additional) m.active_grants })

extend_access_active :
    (m : Manager) (now : Time) (k : String) (g : Grant) (additional : Int64)
    → lookup k m.active_grants ≡ some g
    → g.is_active ≡ true
    → extensions_used_up m g ≡ false
    → extend_access now k additional m ≡ (done, extended m now k g additional)
unfolding extend_access
extend_access_active m now k g additional e active left =
    rw (e, extend_access)
      (if_true g.is_active _ _ active ∙ if_false (extensions_used_up m g) _ _ left)

grants-schedule :
    (now : Time) (g : Grant) (m : Manager)
    → (schedule_revocation now g m).active_grants ≡ m.active_grants
unfolding schedule_revocation
grants-schedule now g m = ground arith

timers-schedule :
    (now : Time) (g : Grant) (m : Manager) (front back : List Timer) (t : Timer)
    → m.timers ≡ front ++ t ∷ back
    → (back' : List Timer) × ((schedule_revocation now g m).timers ≡ front ++ t ∷ back')
unfolding schedule_revocation
timers-schedule now g m front back t e = elim (Bool-cases (leb g.expires_at now)) [
  | inl late ↦ (back, rw late e)
  | inr early ↦
      let added = record { grant_id = g.id; fires_at = g.expires_at } ∷ [] in
      (back ++ added, rw (early, e) (append_assoc front (t ∷ back) added))
]

has-end_grant :
    (k : String) (g : Grant) (m : Manager)
    → lookup k m.active_grants ≡ some g
    → g.is_active ≡ true
    → has k (end_grant k m).active_grants ≡ false
unfolding end_grant drop_grant has
has-end_grant k g m e active =
    rw (e, end_grant)
      (rw (if_true g.is_active (record m { active_grants = delete k m.active_grants }) m active)
        (ground (arith, lookup-delete k k m.active_grants, eq_refl k)))

-- The manager with these timers.
abbrev pub waiting_on : List Timer → Manager → Manager
waiting_on timers m = record m { timers = timers }

-- The timer of the first expiry is not stopped by an extension. Take an active grant, and a timer
-- for it that is due by its expiry. `ExtendAccess` by a positive duration succeeds where the limit
-- of extensions is not reached, and then the grant is active and expires later than the timer is
-- due; but this timer still waits, and when it fires it deletes the grant.
pub extended_grant_ends :
    (m : Manager) (now : Time) (k : String) (g : Grant) (additional : Int64)
    (front back : List Timer) (t : Timer)
    → lookup k m.active_grants ≡ some g
    → g.is_active ≡ true
    → extensions_used_up m g ≡ false
    → zero_i64 < additional
    → m.timers ≡ front ++ t ∷ back
    → t.grant_id ≡ k
    → t.fires_at ≤ g.expires_at
    → ((extend_access now k additional m).0 ≡ done)
      × ((g' : Grant) × (lookup k (extend_access now k additional m).1.active_grants ≡ some g')
          × (g'.is_active ≡ true)
          × (t.fires_at < g'.expires_at))
      × ((back' : List Timer) × ((extend_access now k additional m).1.timers ≡ front ++ t ∷ back')
          × (has k
                (end_grant t.grant_id
                  (waiting_on (front ++ back') (extend_access now k additional m).1)).active_grants
              ≡ false))
extended_grant_ends m now k g additional front back t e active left more waits at due =
    let m1 = extended m now k g additional in
    let state = extend_access_active m now k g additional e active left in
    let held : lookup k m1.active_grants ≡ some (longer g additional) =
      ap (lookup k) (grants-schedule now (longer g additional) _)
      ∙ ground (arith, lookup-insert k k (longer g additional) m.active_grants, eq_refl k) in
    let (back', waiting) =
      timers-schedule now (longer g additional)
        (record m { active_grants = insert k (longer g additional) m.active_grants }) front back t
        waits in
    let m2 : Manager = waiting_on (front ++ back') m1 in
    rw state (
      refl,
      (longer g additional, held, active, unfold add_time in omega arith),
      (back', waiting, rw at (has-end_grant k (longer g additional) m2 held active)),
    )

role_matches_lem :
    (allowed : List String) (role : String)
    → role_matches allowed role ≡ contains allowed role || contains allowed "*"
unfolding role_matches
role_matches_lem [] role = refl
role_matches_lem (r ∷ rs) role = ground (arith, role_matches_lem rs role)

-- A policy matches exactly if it is enabled, it allows the role or all roles, and its pattern is
-- `*` or the very name of the resource: no other pattern stands for more than one name.
pub policy_matches_lem :
    (p : Policy) (resource role : String)
    → policy_matches p resource role
      ≡ p.enabled
        && ((contains p.allowed_roles role || contains p.allowed_roles "*")
            && (p.resource_pattern == "*" || p.resource_pattern == resource))
unfolding policy_matches match_pattern
policy_matches_lem p resource role = ground (arith, role_matches_lem p.allowed_roles role)
