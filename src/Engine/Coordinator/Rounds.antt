-- ===== src/Engine/Coordinator/Rounds.antt =====
-- internal/engine/coordinator.go: the rounds of a level, what they leave alone and what they add.
use platformfoundry_ce.Base.{
  ℕ, suc, String, ◌≡◌, refl, sym, ap, subst, ◌∙◌, inl, inr, Option, none, some, List, [], ◌∷◌, ◌++◌,
  arith, ◌==◌, eq_iff, eq_refl, Bool-cases, Option-cases, contains-append, ◌∈◌,
}
use platformfoundry_ce.Base.Maps.{Map, lookup}
use platformfoundry_ce.Engine.Coordinator.{
  Engine, RunError, Methods, Coordinator, find_spec, execute_engine, execute_level, max_retries,
}
use platformfoundry_ce.Engine.Coordinator.Runs.{execute_engine-Ends}
use platformfoundry_ce.Engine.Coordinator.Kept.{
  NamedIn, AllDone, Keeps, Keeps-none, Keeps-trans, InStep, attempts_from-Keeps,
  attempts_from-InStep, Ends-completes,
}

module _ {ℓ} {R V S : Type ℓ} (methods : Methods R V S) where
  -- The rounds of a level's loop: an ID is passed by, or its engine runs.
  pub data Rounds (specs : Map (Option S))
      : List String
        → List (String × RunError)
        → Coordinator R V
        → List (String × RunError) × Coordinator R V
        → Type ℓ where
    ended :
        (errs : List (String × RunError)) (c : Coordinator R V) → Rounds specs [] errs c (errs, c)
    unknown :
        {id : String} {ids : List String} {errs : List (String × RunError)} {c : Coordinator R V}
        {r : List (String × RunError) × Coordinator R V}
        → lookup id c.engines ≡ none
        → Rounds specs ids errs c r
        → Rounds specs (id ∷ ids) errs c r
    no_spec :
        {id : String} {ids : List String} {errs : List (String × RunError)} {c : Coordinator R V}
        {r : List (String × RunError) × Coordinator R V} (engine : Engine)
        → lookup id c.engines ≡ some engine
        → find_spec engine specs ≡ none
        → Rounds specs ids errs c r
        → Rounds specs (id ∷ ids) errs c r
    ran :
        {id : String} {ids : List String} {errs : List (String × RunError)} {c : Coordinator R V}
        {r : List (String × RunError) × Coordinator R V} (engine : Engine) (spec : S)
        → lookup id c.engines ≡ some engine
        → find_spec engine specs ≡ some spec
        → Rounds specs ids
            (elim (execute_engine methods engine spec c).0 [
              | none ↦ errs
              | some e ↦ errs ++ (engine.name, e) ∷ []
            ])
            (execute_engine methods engine spec c).1
            r
        → Rounds specs (id ∷ ids) errs c r

  module _ (specs : Map (Option S)) where
    pub execute_level-Rounds :
        (ids : List String) (errs : List (String × RunError)) (c : Coordinator R V)
        → Rounds specs ids errs c (execute_level methods specs ids errs c)
    unfolding execute_level
    execute_level-Rounds [] errs c = ended errs c
    execute_level-Rounds (id ∷ ids) errs c = elim (Option-cases (lookup id c.engines)) [
      | inl e ↦ rw (e, execute_level) (unknown e (execute_level-Rounds ids errs c))
      | inr (engine, e) ↦ elim (Option-cases (find_spec engine specs)) [
        | inl s ↦ rw (e, s, execute_level) (no_spec engine e s (execute_level-Rounds ids errs c))
        | inr (spec, s) ↦
            rw (e, s, execute_level) (ran engine spec e s (execute_level-Rounds ids _ _))
      ]
    ]

    pub Rounds-Keeps :
        (ids : List String) (errs : List (String × RunError)) (c : Coordinator R V)
        (r : List (String × RunError) × Coordinator R V)
        → NamedIn c.engines
        → Rounds specs ids errs c r
        → Keeps ids c r.1
    unfolding execute_engine
    Rounds-Keeps [] errs c _ named (ended _ _) = Keeps-none [] c
    Rounds-Keeps (id ∷ ids) errs c r named (unknown e h) =
        Keeps-trans (id ∷ []) ids (Keeps-none (id ∷ []) c) (Rounds-Keeps ids errs c r named h)
    Rounds-Keeps (id ∷ ids) errs c r named (no_spec engine e s h) =
        Keeps-trans (id ∷ []) ids (Keeps-none (id ∷ []) c) (Rounds-Keeps ids errs c r named h)
    Rounds-Keeps (id ∷ ids) errs c r named (ran engine spec e s h) =
        let kept =
          attempts_from-Keeps methods engine spec (max_retries c.config.retry_count) 0 none c in
        Keeps-trans (id ∷ []) ids
          (subst (λ i. Keeps (i ∷ []) c (execute_engine methods engine spec c).1)
            (named id engine e) kept)
          (Rounds-Keeps ids _ _ r (subst NamedIn (sym kept.engines) named) h)

    pub Rounds-InStep :
        (ids : List String) (errs : List (String × RunError)) (c : Coordinator R V)
        (r : List (String × RunError) × Coordinator R V)
        → InStep c
        → Rounds specs ids errs c r
        → InStep r.1
    unfolding execute_engine
    Rounds-InStep [] errs c _ k (ended _ _) = k
    Rounds-InStep (id ∷ ids) errs c r k (unknown e h) = Rounds-InStep ids errs c r k h
    Rounds-InStep (id ∷ ids) errs c r k (no_spec engine e s h) = Rounds-InStep ids errs c r k h
    Rounds-InStep (id ∷ ids) errs c r k (ran engine spec e s h) =
        Rounds-InStep ids _ _ r
          (attempts_from-InStep methods engine spec (max_retries c.config.retry_count) 0 none c k) h

    pub added_stays :
        {ids : List String} {c d : Coordinator R V} (id : String)
        → Keeps ids c d
        → id ∈ c.completed_engines
        → id ∈ d.completed_engines
    added_stays {c = c} {d = d} id kept there =
        let (more, e, w) = kept.adds in
        rw e (ground (arith, contains-append c.completed_engines more id))

    no_errors :
        (o : Option RunError) (name : String) (errs : List (String × RunError))
        → (elim o [ none ↦ errs | some e ↦ errs ++ (name, e) ∷ [] ]) ≡ []
        → (o ≡ none) × (errs ≡ [])
    no_errors none name errs h = (refl, h)
    no_errors (some e) name [] h = cc
    no_errors (some e) name (x ∷ xs) h = cc

    AllDone-cons :
        (id : String) (ids : List String) (engines : Map Engine) (d : Coordinator R V)
        → ((engine : Engine) (spec : S)
            → lookup id engines ≡ some engine
            → find_spec engine specs ≡ some spec
            → id ∈ d.completed_engines)
        → AllDone specs ids engines d
        → AllDone specs (id ∷ ids) engines d
    AllDone-cons id ids engines d here rest j engine spec there e s = elim (Bool-cases (id == j)) [
      | inl same ↦
          let k = (eq_iff id j).0 same in
          subst (λ i. i ∈ d.completed_engines) k
            (here engine spec (subst (λ i. lookup i engines ≡ some engine) (sym k) e) s)
      | inr apart ↦ rest j engine spec (ground arith) e s
    ]

    pub Rounds-AllDone :
        (left : ℕ) (ids : List String) (errs : List (String × RunError)) (c : Coordinator R V)
        (r : List (String × RunError) × Coordinator R V)
        → NamedIn c.engines
        → max_retries c.config.retry_count ≡ suc left
        → r.0 ≡ []
        → Rounds specs ids errs c r
        → (errs ≡ []) × (r.1.errors ≡ c.errors) × AllDone specs ids c.engines r.1
    Rounds-AllDone left [] errs c _ named m none_failed (ended _ _) =
        (none_failed, refl, λ id engine spec there e s. cc)
    Rounds-AllDone left (id ∷ ids) errs c r named m none_failed (unknown e h) =
        let (empty_errs, same, all) = Rounds-AllDone left ids errs c r named m none_failed h in
        (
          empty_errs,
          same,
          AllDone-cons id ids c.engines r.1 (λ engine spec found s. cc (e, found)) all,
        )
    Rounds-AllDone left (id ∷ ids) errs c r named m none_failed (no_spec engine e s h) =
        let (empty_errs, same, all) = Rounds-AllDone left ids errs c r named m none_failed h in
        (
          empty_errs,
          same,
          AllDone-cons id ids c.engines r.1 (λ other spec found s'. cc (e, found, s, s')) all,
        )
    Rounds-AllDone left (id ∷ ids) errs c r named m none_failed (ran engine spec e s h) =
        let d = (execute_engine methods engine spec c).1 in
        let kept : Keeps (engine.id ∷ []) c d =
          unfold execute_engine in
          attempts_from-Keeps methods engine spec (max_retries c.config.retry_count) 0 none c in
        let named' : NamedIn d.engines = subst NamedIn (sym kept.engines) named in
        let (none_before, same, all) =
          Rounds-AllDone left ids _ d r named' (ap (λ k. max_retries k.retry_count) kept.config ∙ m)
            none_failed h in
        let (ran_well, empty_errs) = no_errors _ engine.name errs none_before in
        let (adds, kept_errors) =
          Ends-completes methods engine spec 0 (suc left) c _
            (execute_engine-Ends methods engine spec c left m) ran_well in
        (
          empty_errs,
          same ∙ kept_errors,
          AllDone-cons id ids c.engines r.1
              (λ other spec' found s'. added_stays id (Rounds-Keeps ids _ d r named' h) (
                rw (adds, named id engine e)
                  (ground (arith, contains-append c.completed_engines (id ∷ []) id, eq_refl id))))
              (subst (λ m. AllDone specs ids m r.1) kept.engines all),
        )
