-- ===== src/Engine/Satisfied.antt =====
-- internal/engine/dependency_graph.go: what the resolver finds by a name, and what it says of
-- dependencies and outputs.
use platformfoundry_ce.Base.{
  String, ◌≡◌, ◌↔◌, ◌⊎◌, refl, subst, inl, inr, Bool, true, false, ◌||◌, Option, none, some, List,
  [], ◌∷◌, if◌then◌else◌, arith, ◌==◌, eq_iff, eq_refl, Bool-cases, Option-cases, ◌∈◌, All,
}
use platformfoundry_ce.Base.Maps.{
  Map, lookup, has, keys, flag, has-lookup, has-insert, lookup-insert, RangeOrder, VisitsAll,
}
use platformfoundry_ce.Dag.Cycles.{ranged_all}
use platformfoundry_ce.Engine.Graph.{DependencyGraph}
use platformfoundry_ce.Engine.Resolver.{
  Resolver, first_named, find_engine_by_name, is_satisfied, mark_completed, is_completed, target_id,
  Output, value, no_key, get_output,
}

-- The name stands for this engine: it is its ID, or the name of its node.
unfoldable pub is_named : DependencyGraph → String → String → Bool
is_named g name id = elim (lookup id g.nodes) [
  | none ↦ false
  | some node ↦ node.name == name || id == name
]

-- No name stands for two engines, and no engine has the empty ID.
pub record IsUnambiguous (g : DependencyGraph) : Type 0 where
  pub one : (name a b : String) → is_named g name a ≡ true → is_named g name b ≡ true → a ≡ b
  pub no_empty : has "" g.nodes ≡ false

-- The engine that the name stands for, if there is one, is completed.
abbrev pub IsDone {ℓ} : {V : Type ℓ} → DependencyGraph → Resolver V → String → Type 0
IsDone g r name = (id : String) → is_named g name id ≡ true → is_completed r id ≡ true

abbrev pub answer {ℓ} : {V : Type ℓ} → Option V → Output V
answer none = no_key
answer (some v) = value v

is_named-has :
    (g : DependencyGraph) (name id : String) → is_named g name id ≡ true → has id g.nodes ≡ true
unfolding is_named
is_named-has g name id h = elim (Option-cases (lookup id g.nodes)) [
  | inl e ↦ absurd (ground arith)
  | inr (node, e) ↦ has-lookup id g.nodes e
]

first_named_cases :
    (g : DependencyGraph) (name : String) (ids : List String)
    → ((first_named g name ids ≡ "") × ((id : String) → id ∈ ids → is_named g name id ≡ false))
      ⊎ (is_named g name (first_named g name ids) ≡ true)
unfolding first_named is_named
first_named_cases g name [] = inl (refl, λ id m. cc)
first_named_cases g name (id ∷ ids) = elim (Bool-cases (is_named g name id)) [
  | inl here ↦ inr (ground arith)
  | inr away ↦ (elim (first_named_cases g name ids) [
    | inl (e, out) ↦ inl (ground arith, λ a m. ground (arith, out a, eq_iff id a))
    | inr there ↦ inr (ground arith)
  ])
]

module _ (range : RangeOrder) (visits : VisitsAll range) (g : DependencyGraph) where
  -- The search finds nothing only if nothing has the name.
  find_engine_by_name_cases :
      (name : String)
      → ((find_engine_by_name range g name ≡ "") × ((id : String) → is_named g name id ≡ false))
        ⊎ (is_named g name (find_engine_by_name range g name) ≡ true)
  unfolding find_engine_by_name
  find_engine_by_name_cases name = elim (first_named_cases g name (range 0 (keys g.nodes))) [
    | inr there ↦ inr there
    | inl (e, out) ↦ inl (
      e,
      λ id. elim (Bool-cases (is_named g name id)) [
        | inr away ↦ away
        | inl here ↦ out id (ranged_all range visits g.nodes 0 id (is_named-has g name id here))
      ],
    )
  ]

  module _ (unambiguous : IsUnambiguous g) where
    find_engine_by_name_lem :
        (name id : String) → is_named g name id ≡ true → find_engine_by_name range g name ≡ id
    find_engine_by_name_lem name id here = elim (find_engine_by_name_cases name) [
      | inl (e, out) ↦ absurd (cc (out id, here))
      | inr there ↦ unambiguous.one name (find_engine_by_name range g name) id there here
    ]

    named-nonempty : (name id : String) → is_named g name id ≡ true → (id == "") ≡ false
    named-nonempty name id here = elim (Bool-cases (id == "")) [
      | inr e ↦ e
      | inl e ↦ absurd (
          cc (
            subst (λ x. has x g.nodes ≡ true) ((eq_iff id "").0 e) (is_named-has g name id here),
            unambiguous.no_empty,
          ))
    ]

    module _ {ℓ} {V : Type ℓ} where
      dep-IsDone :
          (r : Resolver V) (dep : String)
          → (if find_engine_by_name range g dep == ""
                then true
                else flag (find_engine_by_name range g dep) r.completed)
              ≡ true
            ↔ IsDone g r dep
      unfolding is_completed
      dep-IsDone r dep = elim (find_engine_by_name_cases dep) [
        | inl (e, out) ↦ (λ h id here. absurd (cc (out id, here)), λ h. rw e refl)
        | inr there ↦
            let some_id = named-nonempty dep (find_engine_by_name range g dep) there in
            (
              λ h id here.
                  subst (λ x. flag x r.completed ≡ true) (find_engine_by_name_lem dep id here)
                    (rw some_id at h),
              λ h. rw some_id (h (find_engine_by_name range g dep) there),
            )
      ]

      -- In a graph where no name stands for two engines, and no engine has the empty ID, for every
      -- order in which Go visits the map: IsSatisfied is true exactly if each engine of the graph
      -- that one of the dependencies names, by its ID or its name, is completed. A dependency that
      -- names no engine of the graph counts as satisfied.
      pub is_satisfied_iff :
          (r : Resolver V) (deps : List String)
          → (is_satisfied range g r deps ≡ true) ↔ All (IsDone g r) deps
      unfolding is_satisfied
      is_satisfied_iff r [] = (λ h. tt, λ h. refl)
      is_satisfied_iff r (dep ∷ deps) =
          let (to, from) = is_satisfied_iff r deps in
          let (dep_to, dep_from) = dep-IsDone r dep in
          (
            λ h. (dep_to (ground arith), to (ground arith)),
            λ (h, hs). ground (arith, dep_from h, from hs),
          )

      get_output_lem :
          (r : Resolver V) (asked key : String) (outputs : Map V)
          → lookup (target_id range g r asked) r.outputs ≡ some outputs
          → get_output range g r asked key ≡ answer (lookup key outputs)
      unfolding get_output
      get_output_lem r asked key outputs e = rw (e, get_output) (answered (lookup key outputs))
        where
          answered : (o : Option V) → (elim o [ none ↦ no_key | some v ↦ value v ]) ≡ answer o
          answered none = refl
          answered (some v) = refl

      -- The engine that was marked is the one that its ID stands for, or its name.
      target_id-mark_completed :
          (r : Resolver V) (id asked : String) (outputs : Map V)
          → (asked ≡ id) ⊎ ((is_named g asked id ≡ true) × (has asked r.outputs ≡ false))
          → target_id range g (mark_completed id outputs r) asked ≡ id
      unfolding target_id mark_completed
      target_id-mark_completed r id asked outputs (inl same) =
          rw same (ground (arith, has-insert id id outputs r.outputs, eq_refl id))
      target_id-mark_completed r id asked outputs (inr (named, absent)) = ground (
        arith,
        has-insert id asked outputs r.outputs,
        eq_iff id asked,
        find_engine_by_name_lem asked id named,
      )

      -- In a graph where no name stands for two engines, and no engine has the empty ID: behind
      -- MarkCompleted of an engine, GetOutput of its ID returns the output that was given for the
      -- key, or that there is none for the key; so does GetOutput of its name, unless the name is
      -- the ID of an engine with outputs.
      pub get_output-mark_completed :
          (r : Resolver V) (id asked key : String) (outputs : Map V)
          → (asked ≡ id) ⊎ ((is_named g asked id ≡ true) × (has asked r.outputs ≡ false))
          → get_output range g (mark_completed id outputs r) asked key ≡ answer (lookup key outputs)
      unfolding mark_completed
      get_output-mark_completed r id asked key outputs which =
          get_output_lem (mark_completed id outputs r) asked key outputs (
            rw (target_id-mark_completed r id asked outputs which)
              (ground (arith, lookup-insert id id outputs r.outputs, eq_refl id)))
