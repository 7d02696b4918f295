-- ===== src/Dag/Layers.antt =====
-- What `GetParallelExecutionLevels` and `TopologicalSort` of internal/workflow/dag/graph.go promise.
use platformfoundry_ce.Base.{
  String, ◌≡◌, ◌↔◌, true, false, List, [], ◌∷◌, ◌++◌, arith, contains, ◌∈◌, All, All-of, All-map,
  Perm, contains-append,
}
use mathlib.Core.List.{append-nil, append_assoc}
use platformfoundry_ce.Base.Maps.{has, keys}
use platformfoundry_ce.Dag.Graph.{Graph, get_dependencies}
use platformfoundry_ce.Dag.Levels.{concat}

-- All dependencies of `a` that are in the graph are among `done`.
abbrev pub Satisfied : Graph → List String → String → Type 0
Satisfied g done a = All (λ d. has d g ≡ true → d ∈ done) (get_dependencies g a)

-- Behind the nodes `done`, each level holds exactly the nodes that its predecessors make ready.
abbrev pub IsLayered : Graph → List String → List (List String) → Type 0
IsLayered g done [] = Unit
IsLayered g done (level ∷ levels) =
    ((a : String)
      → (a ∈ level) ↔ ((has a g ≡ true) × (contains done a ≡ false) × Satisfied g done a))
    × IsLayered g (done ++ level) levels

-- Levels that hold each node of the graph once, each as early as its dependencies allow.
abbrev pub IsSchedule : Graph → List (List String) → Type 0
IsSchedule g levels = IsLayered g [] levels × Perm (concat levels) (keys g)

-- Behind the nodes `done`, each node stands after those that it depends on.
abbrev pub IsOrdered : Graph → List String → List String → Type 0
IsOrdered g done [] = Unit
IsOrdered g done (a ∷ rest) = Satisfied g done a × IsOrdered g (done ++ a ∷ []) rest

module _ (g : Graph) where
  pub Satisfied-mono :
      (done more : List String) (a : String)
      → ((d : String) → d ∈ done → d ∈ more)
      → Satisfied g done a
      → Satisfied g more a
  Satisfied-mono done more a grows h = All-map (get_dependencies g a) (λ d f k. grows d (f k)) h

  pub IsLayered-snoc :
      (done : List String) (levels : List (List String)) (level : List String)
      → IsLayered g done levels
      → ((a : String)
          → (a ∈ level) ↔ (
              (has a g ≡ true)
              × (contains (done ++ concat levels) a ≡ false)
              × Satisfied g (done ++ concat levels) a))
      → IsLayered g done (levels ++ level ∷ [])
  unfolding concat
  IsLayered-snoc done [] level h last = (rw append-nil at last, tt)
  IsLayered-snoc done (l ∷ levels) level h last =
      (h.0, IsLayered-snoc (done ++ l) levels level h.1 (rw (← append_assoc) at last))

  pub IsOrdered-append :
      (done level rest : List String)
      → All (Satisfied g done) level
      → IsOrdered g (done ++ level) rest
      → IsOrdered g done (level ++ rest)
  IsOrdered-append done [] rest h k = rw append-nil at k
  IsOrdered-append done (a ∷ level) rest h k = (
    h.0,
    IsOrdered-append (done ++ a ∷ []) level rest
        (All-map level
          (λ b.
            Satisfied-mono done (done ++ a ∷ []) b
              (λ d m. ground (arith, contains-append done (a ∷ []) d)))
          h.1)
        (rw append_assoc k),
  )

  -- Level after level, each node stands after those that it depends on.
  pub IsLayered-IsOrdered :
      (done : List String) (levels : List (List String))
      → IsLayered g done levels
      → IsOrdered g done (concat levels)
  unfolding concat
  IsLayered-IsOrdered done [] h = tt
  IsLayered-IsOrdered done (level ∷ levels) h =
      IsOrdered-append done level (concat levels) (All-of _ level (λ a m. ((h.0 a).0 m).2))
        (IsLayered-IsOrdered (done ++ level) levels h.1)
