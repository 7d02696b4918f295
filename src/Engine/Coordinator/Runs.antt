-- ===== src/Engine/Coordinator/Runs.antt =====
-- internal/engine/coordinator.go: what the attempts of an engine come to, and what the runs leave of
-- the coordinator.
use platformfoundry_ce.Base.{
  ℕ, zero, suc, ◌+◌, ◌≤◌, ◌<◌, subst, ap, String, ◌≡◌, ◌⊎◌, refl, sym, ◌∙◌, inl, inr, Option, none,
  some, arith, ltb, ltb→lt, Bool-cases, Option-cases,
}
use platformfoundry_ce.Base.Maps.{Map, insert}
use platformfoundry_ce.Engine.Coordinator.{
  Engine, RunError, initialization_failed, start_failed, apply_failed, Reply, refuses, gives,
  Methods, Coordinator, store, run_engine, attempts_from, execute_engine, max_retries,
}

Reply-cases {ℓ} :
    {R V : Type ℓ} (r : Reply R V)
    → ((e : String) × (r ≡ refuses e))
      ⊎ ((result : R) × (outputs : Map V) × (r ≡ gives result outputs))
Reply-cases (refuses e) = inl (e, refl)
Reply-cases (gives result outputs) = inr (result, outputs, refl)

module _ {ℓ} {R V S : Type ℓ} (methods : Methods R V S) where
  -- What the attempt of this number returns.
  unfoldable pub outcome : Engine → S → ℕ → RunError ⊎ (R × Map V)
  outcome engine spec n = elim (methods.initialize engine n) [
    | some e ↦ inl (initialization_failed e)
    | none ↦ elim (methods.start engine n) [
      | some e ↦ inl (start_failed e)
      | none ↦ elim (methods.apply_spec engine spec n) [
        | refuses e ↦ inl (apply_failed e)
        | gives result outputs ↦ inr (result, outputs)
      ]
    ]
  ]

  -- What an attempt with this outcome leaves.
  unfoldable pub settled :
      Engine → RunError ⊎ (R × Map V) → Coordinator R V → Option RunError × Coordinator R V
  settled engine (inl e) c = (some e, c)
  settled engine (inr (result, outputs)) c = (none, store engine result outputs c)

  run_engine-settled :
      (engine : Engine) (spec : S) (n : ℕ) (c : Coordinator R V)
      → run_engine methods engine spec n c ≡ settled engine (outcome engine spec n) c
  unfolding run_engine outcome settled
  run_engine-settled engine spec n c = elim (Option-cases (methods.initialize engine n)) [
    | inr (e, h) ↦ rw (h, run_engine, outcome) refl
    | inl h ↦ elim (Option-cases (methods.start engine n)) [
      | inr (e, k) ↦ rw (h, k, run_engine, outcome) refl
      | inl k ↦ elim (Reply-cases (methods.apply_spec engine spec n)) [
        | inl (e, r) ↦ rw (h, k, r, run_engine, outcome) refl
        | inr (result, outputs, r) ↦ rw (h, k, r, run_engine, outcome) refl
      ]
    ]
  ]

  pub outcome-cases :
      (engine : Engine) (spec : S) (n : ℕ)
      → ((e : RunError) × (outcome engine spec n ≡ inl e))
        ⊎ ((result : R) × (outputs : Map V) × (outcome engine spec n ≡ inr (result, outputs)))
  outcome-cases engine spec n = go (outcome engine spec n) refl
    where
      go :
          (o : RunError ⊎ (R × Map V))
          → outcome engine spec n ≡ o
          → ((e : RunError) × (outcome engine spec n ≡ inl e))
            ⊎ ((result : R) × (outputs : Map V) × (outcome engine spec n ≡ inr (result, outputs)))
      go (inl e) h = inl (e, h)
      go (inr (result, outputs)) h = inr (result, outputs, h)

  abbrev pub Fails : Engine → S → ℕ → Type ℓ
  Fails engine spec n = (e : RunError) × (outcome engine spec n ≡ inl e)

  -- Some attempt from `n` on, of those left, is the first not to fail, and its result is stored; or
  -- they all fail, and the last error is stored.
  abbrev pub Ends :
      Engine → S → ℕ → ℕ → Coordinator R V → Option RunError × Coordinator R V → Type ℓ
  Ends engine spec n left c r =
      ((k : ℕ) × (result : R) × (outputs : Map V) × (n ≤ k)
        × (k < n + left)
        × ((j : ℕ) → n ≤ j → j < k → Fails engine spec j)
        × (outcome engine spec k ≡ inr (result, outputs))
        × (r ≡ (none, store engine result outputs c)))
      ⊎ ((k : ℕ) × (e : RunError) × (suc k ≡ n + left)
          × ((j : ℕ) → n ≤ j → j < n + left → Fails engine spec j)
          × (outcome engine spec k ≡ inl e)
          × (r ≡ (some e, record c { errors = insert engine.id (some e) c.errors })))

  failed_at :
      (engine : Engine) (spec : S) (n j : ℕ)
      → Fails engine spec n
      → n ≤ j
      → (suc n ≤ j → Fails engine spec j)
      → Fails engine spec j
  failed_at engine spec n j here from later = elim (Bool-cases (ltb n j)) [
    | inl h ↦ later (omega (arith, ltb→lt n j h))
    | inr h ↦ let same : n ≡ j = ground arith in subst (Fails engine spec) same here
  ]

  Ends-later :
      (engine : Engine) (spec : S) (n left : ℕ) (c : Coordinator R V)
      (r : Option RunError × Coordinator R V)
      → Fails engine spec n
      → Ends engine spec (suc n) left c r
      → Ends engine spec n (suc left) c r
  Ends-later engine spec n left c r failed (inl (k, result, outputs, from, to, before, out, e)) =
      inl (
        k,
        result,
        outputs,
        omega (arith, from),
        omega (arith, to),
        λ j h t. failed_at engine spec n j failed h (λ l. before j l t),
        out,
        e,
      )
  Ends-later engine spec n left c r failed (inr (k, e, last, all, out, same)) = inr (
    k,
    e,
    omega (arith, last),
    λ j h t. failed_at engine spec n j failed h (λ l. all j l (omega (arith, t))),
    out,
    same,
  )

  pub run_engine-outcome :
      (engine : Engine) (spec : S) (n : ℕ) (c : Coordinator R V) (o : RunError ⊎ (R × Map V))
      → outcome engine spec n ≡ o
      → run_engine methods engine spec n c ≡ settled engine o c
  run_engine-outcome engine spec n c o e =
      run_engine-settled engine spec n c ∙ ap (λ x. settled engine x c) e

  -- The step of the loop, on what the attempt returned.
  unfoldable pub next :
      Engine → S → ℕ → ℕ → Option RunError × Coordinator R V → Option RunError × Coordinator R V
  next engine spec left n r = elim r.0 [
    | none ↦ (none, r.1)
    | some e ↦ attempts_from methods engine spec left (suc n) (some e) r.1
  ]

  pub attempts_from-next :
      (engine : Engine) (spec : S) (left n : ℕ) (last : Option RunError) (c : Coordinator R V)
      (o : RunError ⊎ (R × Map V))
      → outcome engine spec n ≡ o
      → attempts_from methods engine spec (suc left) n last c
        ≡ next engine spec left n (settled engine o c)
  unfolding attempts_from next
  attempts_from-next engine spec left n last c o e =
      ap (next engine spec left n) (run_engine-outcome engine spec n c o e)

  Ends-now :
      (engine : Engine) (spec : S) (left n : ℕ) (c : Coordinator R V) (result : R) (outputs : Map V)
      → outcome engine spec n ≡ inr (result, outputs)
      → Ends engine spec n (suc left) c (none, store engine result outputs c)
  Ends-now engine spec left n c result outputs o =
      inl (n, result, outputs, omega arith, omega arith, λ j h t. absurd (omega arith), o, refl)

  Ends-last :
      (engine : Engine) (spec : S) (n : ℕ) (c : Coordinator R V) (e : RunError)
      → outcome engine spec n ≡ inl e
      → Ends engine spec n 1 c (some e, record c { errors = insert engine.id (some e) c.errors })
  Ends-last engine spec n c e o = inr (
    n,
    e,
    omega arith,
    λ j h t. let same : n ≡ j = omega arith in subst (Fails engine spec) same (e, o),
    o,
    refl,
  )

  attempts_from-Ends :
      (engine : Engine) (spec : S) (left n : ℕ) (last : Option RunError) (c : Coordinator R V)
      → Ends engine spec n (suc left) c (attempts_from methods engine spec (suc left) n last c)
  unfolding attempts_from settled next
  attempts_from-Ends engine spec zero n last c = elim (outcome-cases engine spec n) [
    | inr (result, outputs, o) ↦
        rw (attempts_from-next engine spec zero n last c _ o)
          (Ends-now engine spec zero n c result outputs o)
    | inl (e, o) ↦
        rw (attempts_from-next engine spec zero n last c _ o) (Ends-last engine spec n c e o)
  ]
  attempts_from-Ends engine spec (suc more) n last c = elim (outcome-cases engine spec n) [
    | inr (result, outputs, o) ↦
        rw (attempts_from-next engine spec (suc more) n last c _ o)
          (Ends-now engine spec (suc more) n c result outputs o)
    | inl (e, o) ↦ rw (attempts_from-next engine spec (suc more) n last c _ o) (
        Ends-later engine spec n (suc more) c
          (attempts_from methods engine spec (suc more) (suc n) (some e) c) (e, o)
          (attempts_from-Ends engine spec more (suc n) (some e) c))
  ]

  -- Where the configuration allows an attempt: some attempt is the first not to fail, all those
  -- before it failed, and its result and outputs are stored, its engine is marked as completed and
  -- stands last among the completed ones, and no error is returned; or all allowed attempts fail,
  -- and the error of the last is returned and stored, and nothing else changes.
  pub execute_engine-Ends :
      (engine : Engine) (spec : S) (c : Coordinator R V) (left : ℕ)
      → max_retries c.config.retry_count ≡ suc left
      → Ends engine spec 0 (suc left) c (execute_engine methods engine spec c)
  unfolding execute_engine
  execute_engine-Ends engine spec c left e =
      subst (λ n. Ends engine spec 0 (suc left) c (attempts_from methods engine spec n 0 none c))
        (sym e) (attempts_from-Ends engine spec left 0 none c)
