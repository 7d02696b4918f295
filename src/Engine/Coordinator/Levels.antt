-- ===== src/Engine/Coordinator/Levels.antt =====
-- internal/engine/coordinator.go: the loop of Apply over the levels.
use platformfoundry_ce.Base.{
  ℕ, suc, String, ◌≡◌, refl, sym, ap, subst, ◌∙◌, inl, inr, Option, some, List, [], ◌∷◌, ◌++◌,
  if◌then◌else◌, arith, List-cases, Bool-cases, contains, contains-append,
}
use platformfoundry_ce.Base.Maps.{Map, lookup, RangeOrder}
use platformfoundry_ce.Dag.Goroutines.{goroutines}
use platformfoundry_ce.Engine.Coordinator.{
  RunError, Methods, Coordinator, Applied, completed, level_failed, execute_level, apply_levels,
  rollback_completed, max_retries,
}
use platformfoundry_ce.Engine.Coordinator.Kept.{
  Keeps, Keeps-none, Keeps-trans, InStep, AllDone, NamedIn,
}
use platformfoundry_ce.Engine.Coordinator.Rounds.{
  Rounds-Keeps, Rounds-InStep, Rounds-AllDone, execute_level-Rounds, added_stays,
}

module _ {ℓ} {R V S : Type ℓ} (methods : Methods R V S) (specs : Map (Option S))
    (order : RangeOrder) where
  -- The loop goes on to the next level, or it ends here.
  after_level :
      (n : ℕ) (level : List String) (levels : List (List String)) (c : Coordinator R V)
      (errs : List (String × RunError))
      → (execute_level methods specs (order n level) [] c).0 ≡ errs
      → apply_levels methods order specs n (level ∷ levels) c ≡ (elim errs [
        | [] ↦
            apply_levels methods order specs
              (suc n)
              levels
              (execute_level methods specs (order n level) [] c).1
        | e ∷ es ↦ (
          level_failed n (e ∷ es) (
              if (execute_level methods specs (order n level) [] c).1.config.rollback_on_failure
              then rollback_completed (execute_level methods specs (order n level) [] c).1
              else []),
          (execute_level methods specs (order n level) [] c).1,
        )
      ])
  unfolding apply_levels
  after_level n level levels c errs e = rw (e, apply_levels) refl

  abbrev pub failed_with :
      ℕ → List (String × RunError) → Coordinator R V → Applied × Coordinator R V
  failed_with n errs d =
      (level_failed n errs (if d.config.rollback_on_failure then rollback_completed d else []), d)

  -- The loop over the levels: all are done, one has errors, or one has none and the next follows.
  pub data Levels
      : ℕ → List (List String) → Coordinator R V → Applied × Coordinator R V → Type ℓ where
    finished : (n : ℕ) (c : Coordinator R V) → Levels n [] c (completed, c)
    stopped :
        {n : ℕ} {level : List String} {levels : List (List String)} {c : Coordinator R V}
        {r : Applied × Coordinator R V} (errs : List (String × RunError))
        → r ≡ failed_with n errs (execute_level methods specs (order n level) [] c).1
        → Levels n (level ∷ levels) c r
    goes_on :
        {n : ℕ} {level : List String} {levels : List (List String)} {c : Coordinator R V}
        {r : Applied × Coordinator R V}
        → (execute_level methods specs (order n level) [] c).0 ≡ []
        → Levels (suc n) levels (execute_level methods specs (order n level) [] c).1 r
        → Levels n (level ∷ levels) c r

  pub apply_levels-Levels :
      (n : ℕ) (levels : List (List String)) (c : Coordinator R V)
      → Levels n levels c (apply_levels methods order specs n levels c)
  unfolding apply_levels
  apply_levels-Levels n [] c = finished n c
  apply_levels-Levels n (level ∷ levels) c =
      elim (List-cases (execute_level methods specs (order n level) [] c).0) [
        | inl e ↦
            subst (Levels n (level ∷ levels) c) (sym (after_level n level levels c [] e))
              (goes_on e (apply_levels-Levels (suc n) levels _))
        | inr (x, xs, e) ↦
            subst (Levels n (level ∷ levels) c) (sym (after_level n level levels c (x ∷ xs) e))
              (stopped (x ∷ xs) refl)
      ]

  level-Keeps :
      (n : ℕ) (level : List String) (c : Coordinator R V)
      → NamedIn c.engines
      → Keeps (order n level) c (execute_level methods specs (order n level) [] c).1
  level-Keeps n level c named =
      Rounds-Keeps methods specs (order n level) [] c _ named
        (execute_level-Rounds methods specs (order n level) [] c)

  pub Levels-Keeps :
      (n : ℕ) (levels : List (List String)) (c : Coordinator R V) (r : Applied × Coordinator R V)
      → NamedIn c.engines
      → Levels n levels c r
      → Keeps (goroutines order n levels) c r.1
  unfolding goroutines
  Levels-Keeps n [] c _ named (finished _ _) = Keeps-none [] c
  Levels-Keeps n (level ∷ levels) c r named (stopped errs e) =
      subst (λ x. Keeps (order n level ++ goroutines order (suc n) levels) c x.1) (sym e)
        (Keeps-trans (order n level) (goroutines order (suc n) levels) (level-Keeps n level c named)
          (Keeps-none _ _))
  Levels-Keeps n (level ∷ levels) c r named (goes_on e h) =
      let kept = level-Keeps n level c named in
      Keeps-trans (order n level) (goroutines order (suc n) levels) kept
        (Levels-Keeps (suc n) levels _ r (subst NamedIn (sym kept.engines) named) h)

  pub Levels-InStep :
      (n : ℕ) (levels : List (List String)) (c : Coordinator R V) (r : Applied × Coordinator R V)
      → InStep c
      → Levels n levels c r
      → InStep r.1
  Levels-InStep n [] c _ k (finished _ _) = k
  Levels-InStep n (level ∷ levels) c r k (stopped errs e) =
      subst (λ x. InStep x.1) (sym e)
        (Rounds-InStep methods specs (order n level) [] c _ k
          (execute_level-Rounds methods specs (order n level) [] c))
  Levels-InStep n (level ∷ levels) c r k (goes_on e h) =
      Levels-InStep (suc n) levels _ r
        (Rounds-InStep methods specs (order n level) [] c _ k
          (execute_level-Rounds methods specs (order n level) [] c))
        h

  pub Levels-AllDone :
      (left n : ℕ) (levels : List (List String)) (c : Coordinator R V)
      (r : Applied × Coordinator R V)
      → NamedIn c.engines
      → max_retries c.config.retry_count ≡ suc left
      → r.0 ≡ completed
      → Levels n levels c r
      → (r.1.errors ≡ c.errors) × AllDone specs (goroutines order n levels) c.engines r.1
  unfolding goroutines
  Levels-AllDone left n [] c _ named m ends (finished _ _) = (refl, λ id engine spec there e s. cc)
  Levels-AllDone left n (level ∷ levels) c r named m ends (stopped errs e) =
      absurd (ground (arith, ap (λ x. x.0) e, ends))
  Levels-AllDone left n (level ∷ levels) c r named m ends (goes_on e h) =
      let d = (execute_level methods specs (order n level) [] c).1 in
      let kept = level-Keeps n level c named in
      let named' : NamedIn d.engines = subst NamedIn (sym kept.engines) named in
      let (nothing, same, here) =
        Rounds-AllDone methods specs left (order n level) [] c _ named m e
          (execute_level-Rounds methods specs (order n level) [] c) in
      let (same', later) =
        Levels-AllDone left (suc n) levels d r named'
          (ap (λ k. max_retries k.retry_count) kept.config ∙ m) ends h in
      (
        same' ∙ same,
        λ id engine spec there found s. elim (Bool-cases (contains (order n level) id)) [
          | inl now ↦
              added_stays methods specs id (Levels-Keeps (suc n) levels d r named' h)
                (here id engine spec now found s)
          | inr not_now ↦
              later id engine spec
                (ground
                  (arith, contains-append (order n level) (goroutines order (suc n) levels) id))
                (subst (λ m. lookup id m ≡ some engine) (sym kept.engines) found) s
        ],
      )

  pub Levels-rolled :
      (n : ℕ) (levels : List (List String)) (c : Coordinator R V) (r : Applied × Coordinator R V)
      (k : ℕ) (errs : List (String × RunError)) (rolled : List String)
      → r.0 ≡ level_failed k errs rolled
      → Levels n levels c r
      → rolled ≡ (if r.1.config.rollback_on_failure then rollback_completed r.1 else [])
  Levels-rolled n [] c _ k errs rolled ends (finished _ _) = absurd (ground arith)
  Levels-rolled n (level ∷ levels) c r k errs rolled ends (stopped more e) =
      let was_rolled : Applied × Coordinator R V → Type 0 = λ x.
        x.0 ≡ level_failed k errs rolled
        → rolled ≡ (if x.1.config.rollback_on_failure then rollback_completed x.1 else []) in
      subst was_rolled (sym e) (λ same. cc) ends
  Levels-rolled n (level ∷ levels) c r k errs rolled ends (goes_on e h) =
      Levels-rolled (suc n) levels _ r k errs rolled ends h
