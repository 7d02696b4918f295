-- ===== src/Executor/Attempts.antt =====
-- internal/workflow/dag/executor.go: how the attempts of a step end.
use platformfoundry_ce.Base.{
  ℕ, zero, suc, ◌+◌, ◌≤◌, ◌<◌, String, ◌≡◌, ◌⊎◌, refl, sym, subst, ◌∙◌, inl, inr, Bool, true, false,
  ◌&&◌, ◌||◌, Option, none, some, if◌then◌else◌, arith, ltb, ltb→lt, Bool-cases, Option-cases,
}
use platformfoundry_ce.Executor.Step.{
  StepSpec, StepExecution, StepResult, Attempt, Env, is_completed, is_failed, process_result,
  succeeds, conclude, start_attempt, end_attempt, attempts, max_attempts, execute_step,
}

unfoldable pub is_error : Attempt → Bool
is_error a = elim a.error [ none ↦ false | some e ↦ true ]

-- The attempt lets the step pass: it returned a result that is completed, or one that is failed
-- where the step may continue on a failure.
unfoldable pub passes : StepSpec → Attempt → Bool
passes spec a = elim a.result [
  | none ↦ false
  | some r ↦ is_completed r.status || (spec.continue_on_failure && is_failed r.status)
]

-- One attempt was the last: those before it returned errors, it returned none or none was left, and
-- it alone decides.
abbrev pub EndsAt : (ℕ → Attempt) → StepSpec → ℕ → ℕ → Bool × StepExecution → Type 0
EndsAt handle spec n left r =
    (k : ℕ) × (n ≤ k)
    × (k < n + left)
    × ((j : ℕ) → n ≤ j → j < k → is_error (handle j) ≡ true)
    × ((suc k ≡ n + left) ⊎ (is_error (handle k) ≡ false))
    × (r.0 ≡ passes spec (handle k))
    × (r.1.attempt ≡ k)

process_result-attempt :
    (o : Option StepResult) (e : StepExecution) → (process_result o e).attempt ≡ e.attempt
unfolding process_result
process_result-attempt none e = refl
process_result-attempt (some r) e = refl

conclude_cases :
    (last : Option String) (e : StepExecution)
    → is_completed e.status ≡ false
    → ((conclude last e).0 ≡ false) × ((conclude last e).1.attempt ≡ e.attempt)
unfolding conclude
conclude_cases none e h = (h, refl)
conclude_cases (some err) e h = (refl, refl)

decided :
    (b : Bool) (err : Option String) (e : StepExecution)
    → (b ≡ false → is_completed e.status ≡ false)
    → ((if b then (true, e) else conclude err e).0 ≡ b)
      × ((if b then (true, e) else conclude err e).1.attempt ≡ e.attempt)
decided true err e h = (refl, refl)
decided false err e h = conclude_cases err e (h refl)

passes_result : StepSpec → Option StepResult → Bool
passes_result spec none = false
passes_result spec (some r) =
    is_completed r.status || (spec.continue_on_failure && is_failed r.status)

succeeds-process_result :
    (spec : StepSpec) (o : Option StepResult) (n : ℕ) (e : StepExecution)
    → succeeds spec o (process_result o (start_attempt n e)) ≡ passes_result spec o
unfolding succeeds process_result start_attempt passes_result is_failed
succeeds-process_result spec none n e = ground arith
succeeds-process_result spec (some r) n e = refl

not_passed :
    (spec : StepSpec) (o : Option StepResult) (n : ℕ) (e : StepExecution)
    → passes_result spec o ≡ false
    → is_completed (process_result o (start_attempt n e)).status ≡ false
unfolding passes_result process_result start_attempt is_completed
not_passed spec none n e h = refl
not_passed spec (some r) n e h = ground arith

passes_lem : (spec : StepSpec) (a : Attempt) → passes spec a ≡ passes_result spec a.result
unfolding passes passes_result
passes_lem spec a = ground arith

end_attempt-passes :
    (spec : StepSpec) (last : Option String) (a : Attempt) (n : ℕ) (e : StepExecution)
    → ((end_attempt spec last a (start_attempt n e)).0 ≡ passes spec a)
      × ((end_attempt spec last a (start_attempt n e)).1.attempt ≡ n)
unfolding end_attempt
end_attempt-passes spec last a n e =
    let same = succeeds-process_result spec a.result n e in
    let err : Option String = elim a.error [ none ↦ last | some x ↦ some x ] in
    let (reply, kept) =
      decided (succeeds spec a.result (process_result a.result (start_attempt n e))) err
        (process_result a.result (start_attempt n e))
        (λ h. not_passed spec a.result n e (sym same ∙ h)) in
    (
      reply ∙ same ∙ sym (passes_lem spec a),
      kept ∙ process_result-attempt a.result (start_attempt n e) ∙ unfold start_attempt in refl,
    )

ends_now :
    (handle : ℕ → Attempt) (spec : StepSpec) (last : Option String) (left n : ℕ) (e : StepExecution)
    → (suc n ≡ n + suc left) ⊎ (is_error (handle n) ≡ false)
    → EndsAt handle spec n (suc left) (end_attempt spec last (handle n) (start_attempt n e))
ends_now handle spec last left n e which =
    let (reply, kept) = end_attempt-passes spec last (handle n) n e in
    (n, omega arith, omega arith, λ j from to. absurd (omega arith), which, reply, kept)

-- The attempt returned an error, and one of those after it was the last.
ends_later :
    (handle : ℕ → Attempt) (spec : StepSpec) (n left : ℕ) (r : Bool × StepExecution)
    → is_error (handle n) ≡ true
    → EndsAt handle spec (suc n) left r
    → EndsAt handle spec n (suc left) r
ends_later handle spec n left r failed_n (k, from, to, before, which, reply, kept) =
    (k, omega (arith, from), omega (arith, to), errors, still which, reply, kept)
  where
    errors : (j : ℕ) → n ≤ j → j < k → is_error (handle j) ≡ true
    errors j from_n to_k = elim (Bool-cases (ltb n j)) [
      | inl later ↦ before j (omega (arith, ltb→lt n j later)) to_k
      | inr now ↦
          let same : n ≡ j = ground arith in subst (λ i. is_error (handle i) ≡ true) same failed_n
    ]

    still :
        (suc k ≡ suc n + left) ⊎ (is_error (handle k) ≡ false)
        → (suc k ≡ n + suc left) ⊎ (is_error (handle k) ≡ false)
    still (inl e) = inl (omega (arith, e))
    still (inr e) = inr e

attempts-EndsAt :
    (handle : ℕ → Attempt) (spec : StepSpec) (last : Option String) (left n : ℕ) (e : StepExecution)
    → EndsAt handle spec n (suc left) (attempts handle spec last (suc left) n e)
unfolding attempts is_error
attempts-EndsAt handle spec last zero n e = elim (Option-cases (handle n).error) [
  | inl none_left ↦
      rw (none_left, attempts) (ends_now handle spec last zero n e (inl (omega arith)))
  | inr (err, found) ↦ rw (found, attempts) (ends_now handle spec last zero n e (inl (omega arith)))
]
attempts-EndsAt handle spec last (suc more) n e = elim (Option-cases (handle n).error) [
  | inl none_left ↦
      rw (none_left, attempts)
        (ends_now handle spec last (suc more) n e (inr (rw (none_left, is_error) refl)))
  | inr (err, found) ↦
      rw (found, attempts)
        (ends_later handle spec n (suc more)
          (attempts handle spec (some err) (suc more) (suc n) (start_attempt n e))
          (rw (found, is_error) refl)
          (attempts-EndsAt handle spec (some err) more (suc n) (start_attempt n e)))
]

-- A step with a handler, a configuration that resolves, and one attempt or more: its start is
-- reported, and some attempt was its last. Each attempt before that returned an error; the last
-- returned none, or was the last one allowed; and the step passes exactly if the last attempt's
-- result is completed, or is failed where the step may continue on a failure, whatever error came
-- with it.
pub execute_step-EndsAt :
    (env : Env) (spec : StepSpec) (e : StepExecution) (left : ℕ)
    → env.has_handler spec ≡ true
    → env.config_error spec ≡ none
    → max_attempts spec ≡ suc left
    → ((execute_step env spec e).2 ≡ true)
      × EndsAt
          (env.attempt spec)
          spec
          1
          (suc left)
          ((execute_step env spec e).0, (execute_step env spec e).1)
unfolding execute_step
execute_step-EndsAt env spec e left handler config allowed =
    rw (handler, config, allowed, execute_step)
      (refl, attempts-EndsAt (env.attempt spec) spec none left 1 e)
