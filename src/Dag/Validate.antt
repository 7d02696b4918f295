-- ===== src/Dag/Validate.antt =====
-- `Validate` of internal/workflow/dag/graph.go.
use platformfoundry_ce.Base.{
  String, ◌≡◌, refl, ◌↔◌, ◌⊎◌, inl, inr, true, false, List, [], ◌∷◌, arith, eq_refl, Bool-cases,
  ◌∈◌, All, All-at,
}
use platformfoundry_ce.Base.Maps.{has, keys, RangeOrder, VisitsAll}
use platformfoundry_ce.Dag.Graph.{
  Graph, non_existent, circular, closed_path, ok, err, ◌>>=◌, get_dependencies,
}
use platformfoundry_ce.Dag.Walks.{IsCycle, Acyclic, depends→has, Acyclic-not-IsCycle}
use platformfoundry_ce.Dag.Cycles.{ranged_all}
use platformfoundry_ce.Dag.Schedule.{reject_cycle-detect_cycle}
use platformfoundry_ce.Dag.Levels.{check_deps, check_nodes, validate}

-- No dependency leads out of the graph.
abbrev pub IsClosed : Graph → Type 0
IsClosed g = (a b : String) → b ∈ get_dependencies g a → has b g ≡ true

check_deps_cases :
    (g : Graph) (id : String) (deps : List String)
    → (All (λ d. has d g ≡ true) deps × (check_deps g id deps ≡ ok tt))
      ⊎ ((d : String) × (d ∈ deps)
          × (has d g ≡ false)
          × (check_deps g id deps ≡ err (non_existent id d)))
unfolding check_deps
check_deps_cases g id [] = inl (tt, refl)
check_deps_cases g id (d ∷ deps) = elim (Bool-cases (has d g)) [
  | inr out ↦ inr (d, ground (arith, eq_refl d), out, rw (out, check_deps) refl)
  | inl in_graph ↦ elim (check_deps_cases g id deps) [
    | inl (all, e) ↦ inl ((in_graph, all), rw (in_graph, check_deps) e)
    | inr (b, there, out, e) ↦ inr (b, ground arith, out, rw (in_graph, check_deps) e)
  ]
]

check_nodes_cases :
    (g : Graph) (ids : List String)
    → (All (λ a. All (λ d. has d g ≡ true) (get_dependencies g a)) ids
        × (check_nodes g ids ≡ ok tt))
      ⊎ ((a d : String) × (d ∈ get_dependencies g a)
          × (has d g ≡ false)
          × (check_nodes g ids ≡ err (non_existent a d)))
unfolding check_nodes
check_nodes_cases g [] = inl (tt, refl)
check_nodes_cases g (a ∷ ids) = elim (check_deps_cases g a (get_dependencies g a)) [
  | inr (d, there, out, e) ↦ inr (a, d, there, out, rw (e, ◌>>=◌) refl)
  | inl (here, e) ↦ elim (check_nodes_cases g ids) [
    | inl (all, r) ↦ inl ((here, all), rw (e, ◌>>=◌) r)
    | inr (b, d, there, out, r) ↦ inr (b, d, there, out, rw (e, ◌>>=◌) r)
  ]
]

module _ (range : RangeOrder) (visits : VisitsAll range) (g : Graph) where
  -- For every order in which Go visits the map: `Validate` accepts the graph, and then no
  -- dependency leads out of it and a rank falls along each edge; or it names a dependency of a
  -- node that is not in the graph; or all dependencies are there and it names a cycle.
  pub validate_cases :
      ((validate range g ≡ ok tt) × IsClosed g × Acyclic g)
      ⊎ ((a d : String) × (validate range g ≡ err (non_existent a d))
          × (d ∈ get_dependencies g a)
          × (has d g ≡ false))
      ⊎ ((c : List String) × (validate range g ≡ err (circular (closed_path c)))
          × IsClosed g
          × IsCycle g c)
  unfolding validate
  validate_cases = elim (check_nodes_cases g (range 1 (keys g))) [
    | inr (a, d, there, out, e) ↦ inr (inl (a, d, rw (e, ◌>>=◌) refl, there, out))
    | inl (all, e) ↦
        let closed : IsClosed g = λ a b m.
          All-at (λ d. has d g ≡ true) (get_dependencies g a) b
            (All-at _ (range 1 (keys g)) a all
              (ranged_all range visits g 1 a (depends→has g a b m)))
            m in
        elim (reject_cycle-detect_cycle range visits g) [
          | inl (acyclic, r) ↦ inl (rw (e, ◌>>=◌) r, closed, acyclic)
          | inr (c, cycle, r) ↦ inr (inr (c, rw (e, ◌>>=◌) r, closed, cycle))
        ]
  ]

  -- For every order in which Go visits the map: `Validate` accepts exactly the graphs that no
  -- dependency leads out of and whose edges all lower some rank.
  pub validate_iff : (validate range g ≡ ok tt) ↔ (IsClosed g × Acyclic g)
  validate_iff = (
    λ e. elim validate_cases [
      | inl (r, closed, acyclic) ↦ (closed, acyclic)
      | inr (inl (a, d, r, there, out)) ↦ absurd (cc (e, r))
      | inr (inr (c, r, closed, cycle)) ↦ absurd (cc (e, r))
    ],
    λ (closed, acyclic). elim validate_cases [
      | inl (r, closed', acyclic') ↦ r
      | inr (inl (a, d, r, there, out)) ↦ absurd (cc (closed a d there, out))
      | inr (inr (c, r, closed', cycle)) ↦ absurd (Acyclic-not-IsCycle g acyclic c cycle)
    ],
  )
