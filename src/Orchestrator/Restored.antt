-- ===== src/Orchestrator/Restored.antt =====
-- internal/orchestrator/rollback.go: when a rollback succeeds.
use platformfoundry_ce.Base.{
  String, Bool, ◌≡◌, refl, sym, ap, subst, ◌∙◌, inl, inr, false, none, some, List, [], ◌∷◌, ◌++◌,
  arith, eq_refl, Option-cases, All, All-append,
}
use mathlib.Core.List.{reverse, reverse-cons}
use platformfoundry_ce.Base.Maps.{Map, lookup, insert, delete, has, lookup-insert, has-delete}
use platformfoundry_ce.Orchestrator.Dependency.{Value, text, Resource}
use platformfoundry_ce.Orchestrator.Apply.{
  Env, Stored, Store, get, Failure, provider_of, apply_resource, delete_resource, missing_provider,
}
use platformfoundry_ce.Orchestrator.Rollback.{
  RollbackResource, RollbackPlan, Plans, done, failed, removes, restores, planned, plan_resources,
  create_rollback_plan, restore, rollback_resource, rollback_each, execute_rollback,
}

delete_resource-deletes :
    (env : Env) (name : String) (store : Store)
    → (delete_resource env name store).0 ≡ none
    → (delete_resource env name store).1 ≡ delete name store
unfolding delete_resource
delete_resource-deletes env name store h = ground arith

module _ (env : Env) (encode : Map Value → String) (reads : String → Bool) (before : Store) where
  planned_restore :
      (r : Resource) (stored : Stored)
      → get reads r.name before ≡ some stored
      → planned encode reads before r ≡ record {
        name = r.name;
        kind = r.kind;
        action = restores;
        previous_state = some (("spec", text (encode stored.spec)) ∷ []);
      }
  unfolding planned
  planned_restore r stored e = rw (e, planned) refl

  planned_removal :
      (r : Resource)
      → get reads r.name before ≡ none
      → planned encode reads before r
        ≡ record { name = r.name; kind = r.kind; action = removes; previous_state = none }
  unfolding planned
  planned_removal r e = rw (e, planned) refl

  -- The provider is not in the state that a plan keeps, so a resource that was there before is
  -- never restored.
  restore-fails :
      (r : Resource) (stored : Stored) (store : Store)
      → get reads r.name before ≡ some stored
      → rollback_resource env (planned encode reads before r) store
        ≡ (some (missing_provider r.name), store)
  unfolding rollback_resource restore apply_resource provider_of lookup
  restore-fails r stored store e =
      ap (λ entry. rollback_resource env entry store) (planned_restore r stored e)

  removal-deletes :
      (r : Resource) (store : Store)
      → get reads r.name before ≡ none
      → rollback_resource env (planned encode reads before r) store
        ≡ delete_resource env r.name store
  unfolding rollback_resource
  removal-deletes r store e = ap (λ entry. rollback_resource env entry store) (planned_removal r e)

  planned-name : (r : Resource) → (planned encode reads before r).name ≡ r.name
  unfolding planned
  planned-name r = elim (Option-cases (get reads r.name before)) [
    | inl e ↦ rw (e, planned) refl
    | inr (stored, e) ↦ rw (e, planned) refl
  ]

  -- An entry that is rolled back was not there before, and is deleted.
  rolled_back_entry :
      (r : Resource) (store : Store)
      → (rollback_resource env (planned encode reads before r) store).0 ≡ none
      → (get reads r.name before ≡ none)
        × ((rollback_resource env (planned encode reads before r) store).1 ≡ delete r.name store)
  rolled_back_entry r store h = elim (Option-cases (get reads r.name before)) [
    | inr (stored, e) ↦ absurd (ground (arith, ap (λ x. x.0) (restore-fails r stored store e)))
    | inl e ↦
        let same = removal-deletes r store e in
        (
          e,
          ap (λ x. x.1) same
              ∙ delete_resource-deletes env r.name store (sym (ap (λ x. x.0) same) ∙ h),
        )
  ]

  Planned : RollbackResource → Type 0
  Planned entry = (r : Resource) × (entry ≡ planned encode reads before r)

  abbrev Gone : Store → RollbackResource → Type 0
  Gone after entry = (get reads entry.name before ≡ none) × (has entry.name after ≡ false)

  rollback_each-works :
      (entry : RollbackResource) (entries : List RollbackResource) (store : Store)
      → (rollback_resource env entry store).0 ≡ none
      → rollback_each env (entry ∷ entries) store
        ≡ rollback_each env entries (rollback_resource env entry store).1
  unfolding rollback_each
  rollback_each-works entry entries store e = rw (e, rollback_each) refl

  rollback_each-fails :
      (entry : RollbackResource) (entries : List RollbackResource) (store : Store)
      (failure : Failure)
      → (rollback_resource env entry store).0 ≡ some failure
      → (rollback_each env (entry ∷ entries) store).0 ≡ failed entry.name failure
  unfolding rollback_each
  rollback_each-fails entry entries store failure e = rw (e, rollback_each) refl

  rollback_each-Gone :
      (entries : List RollbackResource) (store after : Store)
      → All Planned entries
      → rollback_each env entries store ≡ (done, after)
      → ((name : String) → has name store ≡ false → has name after ≡ false)
        × All (Gone after) entries
  unfolding rollback_each Planned
  rollback_each-Gone [] store after h e =
      let same = ap (λ x. x.1) e in (λ name absent. subst (λ m. has name m ≡ false) same absent, tt)
  rollback_each-Gone (entry ∷ entries) store after ((r, is_planned), h) e =
      elim (Option-cases (rollback_resource env entry store).0) [
        | inr (failure, fails) ↦
            absurd (
              ground
                (arith, rollback_each-fails entry entries store failure fails, ap (λ x. x.0) e))
        | inl works ↦
            let (new, deleted) =
              rolled_back_entry r store
                (subst (λ x. (rollback_resource env x store).0 ≡ none) is_planned works) in
            let left : (rollback_resource env entry store).1 ≡ delete r.name store =
              subst (λ x. (rollback_resource env x store).1 ≡ delete r.name store) (sym is_planned)
                deleted in
            let (stays, gone) = rollback_each-Gone entries (delete r.name store) after h (
              subst (λ m. rollback_each env entries m ≡ (done, after)) left
                (sym (rollback_each-works entry entries store works) ∙ e)) in
            let named : entry.name ≡ r.name = ap (λ x. x.name) is_planned ∙ planned-name r in
            (
              λ name absent. stays name (ground (arith, has-delete r.name name store)),
              (
                (
                  subst (λ n. get reads n before ≡ none) (sym named) new,
                  subst (λ n. has n after ≡ false) (sym named)
                      (stays r.name
                        (ground (arith, has-delete r.name r.name store, eq_refl r.name))),
                ),
                gone,
              ),
            )
      ]

  All-reverse :
      (P : RollbackResource → Type 0) (xs : List RollbackResource) → All P xs → All P (reverse xs)
  All-reverse P [] h = tt
  All-reverse P (x ∷ xs) h =
      subst (All P) (sym (reverse-cons x xs))
        (All-append P (reverse xs) (x ∷ []) (All-reverse P xs h.1) (h.0, tt))

  All-split :
      (P : RollbackResource → Type 0) (xs ys : List RollbackResource)
      → All P (xs ++ ys)
      → All P xs × All P ys
  All-split P [] ys h = (tt, h)
  All-split P (x ∷ xs) ys h = let (front, back) = All-split P xs ys h.1 in ((h.0, front), back)

  All-unreverse :
      (P : RollbackResource → Type 0) (xs : List RollbackResource) → All P (reverse xs) → All P xs
  All-unreverse P [] h = tt
  All-unreverse P (x ∷ xs) h =
      let (rest, last) = All-split P (reverse xs) (x ∷ []) (subst (All P) (reverse-cons x xs) h) in
      (last.0, All-unreverse P xs rest)

  plan_resources-Planned :
      (resources : List Resource) → All Planned (plan_resources encode reads before resources)
  unfolding plan_resources Planned
  plan_resources-Planned [] = tt
  plan_resources-Planned (r ∷ resources) = ((r, refl), plan_resources-Planned resources)

  back_to_resources :
      (after : Store) (resources : List Resource)
      → All (Gone after) (plan_resources encode reads before resources)
      → All (λ r. (get reads r.name before ≡ none) × (has r.name after ≡ false)) resources
  unfolding plan_resources
  back_to_resources after [] h = tt
  back_to_resources after (r ∷ resources) h = (
    subst (λ n. (get reads n before ≡ none) × (has n after ≡ false)) (planned-name r) h.0,
    back_to_resources after resources h.1,
  )

execute_rollback_plan :
    (env : Env) (plans : Plans) (job : String) (plan : RollbackPlan) (store : Store)
    → lookup job plans ≡ some plan
    → execute_rollback env plans job store ≡ rollback_each env (reverse plan.resources) store
unfolding execute_rollback
execute_rollback_plan env plans job plan store e = rw (e, execute_rollback) refl

-- Whatever the plugins and the backend answer, and whatever came in between: if the rollback of the
-- plan that was made for a batch succeeds, then for each resource of the batch the read of the store
-- that the plan made gave nothing, be it that the resource was not there or that the read failed,
-- and the resource is not in the store behind the rollback. So no resource that a read found is
-- restored, and one whose read failed is gone.
pub execute_rollback-deletes :
    (env : Env) (encode : Map Value → String) (reads : String → Bool) (before : Store)
    (job : String) (resources : List Resource) (plans : Plans) (store after : Store)
    → execute_rollback env (create_rollback_plan encode reads before job resources plans) job store
      ≡ (done, after)
    → All (λ r. (get reads r.name before ≡ none) × (has r.name after ≡ false)) resources
unfolding execute_rollback create_rollback_plan
execute_rollback-deletes env encode reads before job resources plans store after e =
    let entries = plan_resources encode reads before resources in
    let plan : RollbackPlan = record { job_id = job; resources = entries } in
    let found : lookup job (insert job plan plans) ≡ some plan =
      ground (arith, lookup-insert job job plan plans, eq_refl job) in
    let ran : rollback_each env (reverse entries) store ≡ (done, after) =
      sym (execute_rollback_plan env (insert job plan plans) job plan store found) ∙ e in
    back_to_resources env encode reads before after resources (
      All-unreverse env encode reads before _ entries
        (rollback_each-Gone env encode reads before (reverse entries) store after
          (All-reverse env encode reads before _ entries
            (plan_resources-Planned env encode reads before resources))
          ran).1)
