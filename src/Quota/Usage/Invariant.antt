-- ===== src/Quota/Usage/Invariant.antt =====
-- internal/quota/manager.go: the states that the calls of the manager reach.
use platformfoundry_ce.Base.{
  String, ◌≡◌, refl, sym, ap, subst, ◌∙◌, inl, inr, Bool, true, some, List, [], ◌∷◌, arith, eq_iff,
  Bool-cases, Option-cases, Distinct,
}
use platformfoundry_ce.Base.Int64.{Int64, add_i64}
use platformfoundry_ce.Base.Maps.{
  lookup, insert, delete, has, keys, has-insert, has-delete, lookup-insert, lookup-delete,
  insert-Distinct, delete-Distinct, RangeOrder,
}
use platformfoundry_ce.Quota.Types.{QuotaScope, ResourceQuota, ok, validate}
use platformfoundry_ce.Quota.Manager.{
  Manager, used, usage_of, applicable, new_manager, register_quota, unregister_quota,
}
use platformfoundry_ce.Quota.Usage.{
  set_used, consume_quota, consume_commit, for_keys, release_quota, release, set_enforcement_mode,
  reset_usage, set_usage,
}
use platformfoundry_ce.Quota.Usage.Frame.{alerts_frame}
use platformfoundry_ce.Quota.Usage.Loops.{
  applies-has, applies-some, release_quota-IsSameSetup, has-release_quota,
}

-- Each quota stands under its own name, is valid, and has an entry in the usage; nothing else has.
pub record IsWellFormed (m : Manager) : Type 0 where
  pub keys_distinct : Distinct (keys m.quotas)
  pub entries : (k : String) → has k m.usage ≡ has k m.quotas
  pub names :
      (k : String) (quota : ResourceQuota)
      → lookup k m.quotas ≡ some quota
      → (quota.name ≡ k) × (validate quota ≡ ok tt)

same-IsWellFormed :
    (m m' : Manager)
    → m'.quotas ≡ m.quotas
    → ((k : String) → has k m'.usage ≡ has k m.usage)
    → IsWellFormed m
    → IsWellFormed m'
same-IsWellFormed m m' e same well = record {
  keys_distinct = rw e well.keys_distinct;
  entries = λ k. rw e (same k ∙ well.entries k);
  names = λ k quota h. well.names k quota (ap (lookup k) (sym e) ∙ h);
}

set_used-IsWellFormed :
    (key resource : String) (n : Int64) (m : Manager)
    → has key m.quotas ≡ true
    → IsWellFormed m
    → IsWellFormed (set_used key resource n m)
unfolding set_used
set_used-IsWellFormed key resource n m there well =
    same-IsWellFormed m _ refl
      (λ k. ground (
        arith,
        has-insert key k (insert resource n (usage_of m key)) m.usage,
        eq_iff key k,
        well.entries key,
      ))
      well

for_keys-IsWellFormed :
    (round : String → Manager → Manager) (ks : List String) (m : Manager)
    → ((key : String) (m : Manager) → IsWellFormed m → IsWellFormed (round key m))
    → IsWellFormed m
    → IsWellFormed (for_keys round ks m)
unfolding for_keys
for_keys-IsWellFormed round [] m each well = well
for_keys-IsWellFormed round (key ∷ ks) m each well =
    for_keys-IsWellFormed round ks (round key m) each (each key m well)

release_quota-IsWellFormed :
    (scope : QuotaScope) (resource : String) (amount : Int64) (key : String) (m : Manager)
    → IsWellFormed m
    → IsWellFormed (release_quota scope resource amount key m)
release_quota-IsWellFormed scope resource amount key m =
    same-IsWellFormed m _ (release_quota-IsSameSetup scope resource amount key m).quotas
      (λ k. has-release_quota scope resource amount key m k)

consume_quota-IsWellFormed :
    (reaches : Int64 → Int64 → Int64 → Bool) (scope : QuotaScope) (resource : String)
    (amount : Int64) (key : String) (m : Manager)
    → IsWellFormed m
    → IsWellFormed (consume_quota reaches scope resource amount key m)
unfolding consume_quota
consume_quota-IsWellFormed reaches scope resource amount key m well =
    elim (Option-cases (applicable m scope resource key)) [
      | inl e ↦ rw (e, consume_quota) well
      | inr ((quota, limit), e) ↦
          let m' = set_used key resource (add_i64 (used m key resource) amount) m in
          let there = applies-has m scope resource key (applies-some m scope resource key e) in
          let frame = alerts_frame reaches key quota resource limit m' in
          rw (e, consume_quota)
            (same-IsWellFormed m' _ frame.0.quotas (λ k. ap (has k) frame.1)
              (set_used-IsWellFormed key resource _ m there well))
    ]

-- The calls of the manager that change its state and succeed.
pub data Step (reaches : Int64 → Int64 → Int64 → Bool) (m : Manager) : Manager → Type 0 where
  registered : (q : ResourceQuota) {m' : Manager} → register_quota m q ≡ ok m' → Step reaches m m'
  unregistered :
      (name : String) {m' : Manager} → unregister_quota m name ≡ ok m' → Step reaches m m'
  committed :
      (range : RangeOrder) (scope : QuotaScope) (resource : String) (amount : Int64)
      → Step reaches m (consume_commit reaches range m scope resource amount)
  released :
      (range : RangeOrder) (scope : QuotaScope) (resource : String) (amount : Int64)
      → Step reaches m (release range m scope resource amount)
  moded : (mode : String) → Step reaches m (set_enforcement_mode mode m)
  was_reset : (name : String) {m' : Manager} → reset_usage m name ≡ ok m' → Step reaches m m'
  was_set :
      (name resource : String) (n : Int64) {m' : Manager}
      → set_usage m name resource n ≡ ok m'
      → Step reaches m m'

-- What a sequence of calls reaches, with the calls of other goroutines between the check of a
-- `Consume` and its commit.
pub data Reached (reaches : Int64 → Int64 → Int64 → Bool) : Manager → Type 0 where
  made : (mode : String) (handler : Bool) → Reached reaches (new_manager mode handler)
  then_step : {m m' : Manager} → Reached reaches m → Step reaches m m' → Reached reaches m'

abbrev registered_state : Manager → ResourceQuota → Manager
registered_state m q = record m {
  quotas = insert q.name q m.quotas;
  usage = insert q.name [] m.usage;
}

register_quota_ok :
    (m m' : Manager) (q : ResourceQuota)
    → register_quota m q ≡ ok m'
    → (validate q ≡ ok tt) × (registered_state m q ≡ m')
unfolding register_quota
register_quota_ok m m' q e = ground arith

register_quota-IsWellFormed :
    (m m' : Manager) (q : ResourceQuota)
    → register_quota m q ≡ ok m'
    → IsWellFormed m
    → IsWellFormed m'
register_quota-IsWellFormed m m' q e well =
    let (valid, same) = register_quota_ok m m' q e in
    subst IsWellFormed same (record {
      keys_distinct = insert-Distinct q.name q m.quotas well.keys_distinct;
      entries = λ k.
          ground
            (arith, has-insert q.name k q m.quotas, has-insert q.name k [] m.usage, well.entries k);
      names = λ k quota h.
          ground (arith, lookup-insert q.name k q m.quotas, eq_iff q.name k, well.names k quota);
    })

unregister_quota_ok :
    (m m' : Manager) (name : String)
    → unregister_quota m name ≡ ok m'
    → record m { quotas = delete name m.quotas; usage = delete name m.usage } ≡ m'
unfolding unregister_quota
unregister_quota_ok m m' name e = ground arith

unregister_quota-IsWellFormed :
    (m m' : Manager) (name : String)
    → unregister_quota m name ≡ ok m'
    → IsWellFormed m
    → IsWellFormed m'
unregister_quota-IsWellFormed m m' name e well =
    subst IsWellFormed (unregister_quota_ok m m' name e) (record {
      keys_distinct = delete-Distinct name m.quotas well.keys_distinct;
      entries = λ k.
          ground (arith, has-delete name k m.quotas, has-delete name k m.usage, well.entries k);
      names = λ k quota h. ground (arith, lookup-delete name k m.quotas, well.names k quota);
    })

reset_usage-IsWellFormed :
    (m m' : Manager) (name : String) → reset_usage m name ≡ ok m' → IsWellFormed m → IsWellFormed m'
unfolding reset_usage
reset_usage-IsWellFormed m m' name e well = elim (Bool-cases (has name m.quotas)) [
  | inr absent ↦ ground arith
  | inl there ↦
      same-IsWellFormed m m' (ground arith)
        (λ k. ground (arith, has-insert name k [] m.usage, eq_iff name k, well.entries name)) well
]

set_usage-IsWellFormed :
    (m m' : Manager) (name resource : String) (n : Int64)
    → set_usage m name resource n ≡ ok m'
    → IsWellFormed m
    → IsWellFormed m'
unfolding set_usage
set_usage-IsWellFormed m m' name resource n e well = elim (Bool-cases (has name m.quotas)) [
  | inr absent ↦ ground arith
  | inl there ↦
      let same : set_used name resource n m ≡ m' = ground arith in
      subst IsWellFormed same (set_used-IsWellFormed name resource n m there well)
]

module _ (reaches : Int64 → Int64 → Int64 → Bool) where
  pub Step-IsWellFormed : {m m' : Manager} → Step reaches m m' → IsWellFormed m → IsWellFormed m'
  Step-IsWellFormed (registered q e) well = register_quota-IsWellFormed _ _ q e well
  Step-IsWellFormed (unregistered name e) well = unregister_quota-IsWellFormed _ _ name e well
  Step-IsWellFormed {m} (committed range scope resource amount) well =
      unfold consume_commit in
      for_keys-IsWellFormed _ (range 1 (keys m.quotas)) m
        (λ key m. consume_quota-IsWellFormed reaches scope resource amount key m) well
  Step-IsWellFormed {m} (released range scope resource amount) well =
      unfold release in
      for_keys-IsWellFormed _ (range 0 (keys m.quotas)) m
        (λ key m. release_quota-IsWellFormed scope resource amount key m) well
  Step-IsWellFormed {m} (moded mode) well =
      unfold set_enforcement_mode in same-IsWellFormed m _ refl (λ k. refl) well
  Step-IsWellFormed (was_reset name e) well = reset_usage-IsWellFormed _ _ name e well
  Step-IsWellFormed (was_set name resource n e) well =
      set_usage-IsWellFormed _ _ name resource n e well

  -- Whatever calls the manager gets from its making on, in whatever order and with calls of other
  -- goroutines between the check of a `Consume` and its commit: each quota stands under its own
  -- name, passes validation and has an entry in the usage, and no other name has one.
  pub Reached-IsWellFormed : {m : Manager} → Reached reaches m → IsWellFormed m
  unfolding keys has lookup
  Reached-IsWellFormed (made mode handler) =
      unfold new_manager in
      record { keys_distinct = tt; entries = λ k. refl; names = λ k quota h. cc }
  Reached-IsWellFormed (then_step before step) =
      Step-IsWellFormed step (Reached-IsWellFormed before)
