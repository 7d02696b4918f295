-- ===== src/Dag/Build.antt =====
-- `BuildFromSteps` of internal/workflow/dag/graph.go.
use platformfoundry_ce.Base.{
  String, ◌≡◌, refl, sym, subst, ◌∙◌, inl, inr, true, List, [], ◌∷◌, ◌++◌, arith, ◌==◌, eq_iff,
  eq_refl, Bool-cases, ◌∈◌, All, Distinct, Distinct-middle, ℕ, ◌<◌, All-at,
}
use mathlib.Core.List.{append-nil, append_assoc}
use platformfoundry_ce.Base.Maps.{has, keys, contains-keys, RangeOrder, VisitsAll}
use platformfoundry_ce.Dag.Graph.{
  Graph, Result, ok, err, ◌>>=◌, ◌>>◌, new_graph, add_node, get_dependencies,
}
use platformfoundry_ce.Dag.Walks.{Acyclic, depends→has}
use platformfoundry_ce.Dag.Neighbours.{
  IsWellFormed, new_graph-IsWellFormed, add_node-IsWellFormed, get_dependencies-add_node,
  keys-add_node, has-add_node, fresh, add_node_total,
}
use platformfoundry_ce.Dag.Validate.{IsClosed, validate_iff}
use platformfoundry_ce.Dag.Levels.{StepInfo, add_steps, build_from_steps, validate}

abbrev pub ids : List StepInfo → List String
ids [] = []
ids (s ∷ steps) = s.id ∷ ids steps

-- The graph holds the steps in their order, under their dependencies.
pub record IsBuilt (steps : List StepInfo) (g : Graph) : Type 0 where
  pub well_formed : IsWellFormed g
  pub in_order : keys g ≡ ids steps
  pub as_given : All (λ s. get_dependencies g s.id ≡ s.depends_on) steps

>>=-eq-ok :
    {A B : Type 0} {last : B} (first : Result A) (next : A → Result B)
    → (first >>= next) ≡ ok last
    → (value : A) × (first ≡ ok value) × (next value ≡ ok last)
>>=-eq-ok (err failure) next e = cc
>>=-eq-ok (ok value) next e = (value, refl, e)

-- What the loop of `BuildFromSteps` adds to a graph.
record IsExtended (g : Graph) (steps : List StepInfo) (g' : Graph) : Type 0 where
  well_formed : IsWellFormed g'
  in_order : keys g' ≡ keys g ++ ids steps
  as_given : All (λ s. get_dependencies g' s.id ≡ s.depends_on) steps
  kept : (k : String) → has k g ≡ true → get_dependencies g' k ≡ get_dependencies g k

add_node-IsExtended :
    (g g₁ g' : Graph) (s : StepInfo) (steps : List StepInfo)
    → add_node g s.id s.name s.depends_on ≡ ok g₁
    → IsExtended g₁ steps g'
    → IsExtended g (s ∷ steps) g'
add_node-IsExtended g g₁ g' s steps added x = record {
  well_formed = x.well_formed;
  in_order =
      x.in_order
      ∙ rw (keys-add_node g g₁ s.id s.name s.depends_on added)
          (append_assoc (keys g) (s.id ∷ []) (ids steps));
  as_given = (x.kept s.id (known s.id (eq_refl s.id)) ∙ new, x.as_given);
  kept = λ k h.
      x.kept k (ground (arith, has-add_node g g₁ s.id s.name s.depends_on added k)) ∙ old k h;
}
  where
    known : (k : String) → (s.id == k) ≡ true → has k g₁ ≡ true
    known k e = ground (arith, has-add_node g g₁ s.id s.name s.depends_on added k)

    new : get_dependencies g₁ s.id ≡ s.depends_on
    new = get_dependencies-add_node g g₁ s.id s.name s.depends_on added s.id ∙ rw eq_refl refl

    old : (k : String) → has k g ≡ true → get_dependencies g₁ k ≡ get_dependencies g k
    old k h = ground (
      arith,
      get_dependencies-add_node g g₁ s.id s.name s.depends_on added k,
      eq_iff s.id k,
      fresh g g₁ s.id s.name s.depends_on added,
    )

add_steps-IsExtended :
    (g g' : Graph) (steps : List StepInfo)
    → IsWellFormed g
    → add_steps g steps ≡ ok g'
    → IsExtended g steps g'
unfolding add_steps
add_steps-IsExtended g g' [] w e =
    let same : g ≡ g' = cc e in
    rw (← same) (record {
      well_formed = w;
      in_order = sym (append-nil (keys g));
      as_given = tt;
      kept = λ k h. refl;
    })
add_steps-IsExtended g g' (s ∷ steps) w e =
    let (g₁, added, rest) =
      >>=-eq-ok (add_node g s.id s.name s.depends_on) (λ h. add_steps h steps) e in
    add_node-IsExtended g g₁ g' s steps added (
      add_steps-IsExtended g₁ g' steps (add_node-IsWellFormed g g₁ s.id s.name s.depends_on added w)
        rest)

-- If the graph and the steps have no ID twice then all steps are added.
add_steps_total :
    (g : Graph) (steps : List StepInfo)
    → Distinct (keys g ++ ids steps)
    → (g' : Graph) × (add_steps g steps ≡ ok g')
unfolding add_steps
add_steps_total g [] h = (g, refl)
add_steps_total g (s ∷ steps) h =
    let (g₁, added) =
      add_node_total g s.id s.name s.depends_on
        (sym (contains-keys g s.id) ∙ Distinct-middle (keys g) s.id (ids steps) h) in
    let (g', rest) =
      add_steps_total g₁ steps
        (rw (keys-add_node g g₁ s.id s.name s.depends_on added, append_assoc) h) in
    (g', rw (added, ◌>>=◌) rest)

-- Each step may run after the steps of lower rank, and depends on such steps alone.
abbrev pub IsRanked : (String → ℕ) → List StepInfo → List StepInfo → Type 0
IsRanked rank all steps =
    All (λ s. All (λ d. (d ∈ ids all) × (rank d < rank s.id)) s.depends_on) steps

IsRanked-at :
    (rank : String → ℕ) (all steps : List StepInfo) (g : Graph)
    → IsRanked rank all steps
    → All (λ s. get_dependencies g s.id ≡ s.depends_on) steps
    → (a b : String) → a ∈ ids steps
    → b ∈ get_dependencies g a
    → (b ∈ ids all) × (rank b < rank a)
IsRanked-at rank all [] g r given a b m d = cc
IsRanked-at rank all (s ∷ steps) g r given a b m d = elim (Bool-cases (s.id == a)) [
  | inr e ↦ IsRanked-at rank all steps g r.1 given.1 a b (ground arith) d
  | inl e ↦
      let same = (eq_iff s.id a).0 e in
      let (there, lower) =
        All-at (λ d. (d ∈ ids all) × (rank d < rank s.id)) s.depends_on b r.0
          (ground (arith, given.0)) in
      (there, rw same at lower)
]

built : {steps : List StepInfo} {g : Graph} → IsExtended new_graph steps g → IsBuilt steps g
unfolding keys
built x = record { well_formed = x.well_formed; in_order = x.in_order; as_given = x.as_given }

module _ (range : RangeOrder) (visits : VisitsAll range) (steps : List StepInfo) where
  -- If `BuildFromSteps` returns a graph then the graph is well formed and holds the steps in
  -- their order with the dependencies given, every dependency is a step, and a rank falls from
  -- each step to those that it depends on.
  pub build_from_steps-IsBuilt :
      (g : Graph) → build_from_steps range steps ≡ ok g → IsBuilt steps g × (IsClosed g × Acyclic g)
  unfolding build_from_steps
  build_from_steps-IsBuilt g e =
      let (h, added, rest) =
        >>=-eq-ok (add_steps new_graph steps) (λ h. validate range h >> ok h) e in
      let (u, valid, last) = >>=-eq-ok (validate range h) (λ _. ok h) rest in
      let same : h ≡ g = cc last in
      rw (← same) (
        built (add_steps-IsExtended new_graph h steps new_graph-IsWellFormed added),
        (validate_iff range visits h).0 valid,
      )

  -- Steps with distinct IDs whose dependencies are steps of lower rank, for some rank, give a graph.
  pub build_from_steps_total :
      (rank : String → ℕ)
      → Distinct (ids steps)
      → IsRanked rank steps steps
      → (g : Graph) × (build_from_steps range steps ≡ ok g)
  unfolding build_from_steps keys
  build_from_steps_total rank distinct ranked =
      let (g, added) = add_steps_total new_graph steps distinct in
      let b = built (add_steps-IsExtended new_graph g steps new_graph-IsWellFormed added) in
      let at = IsRanked-at rank steps steps g ranked b.as_given in
      let in_steps : (a : String) → has a g ≡ true → a ∈ ids steps =
        λ a h. subst (λ l. a ∈ l) b.in_order (contains-keys g a ∙ h) in
      let closed : IsClosed g = λ a d m.
        sym (contains-keys g d)
        ∙ subst (λ l. d ∈ l) (sym b.in_order) (at a d (in_steps a (depends→has g a d m)) m).0 in
      let acyclic : Acyclic g =
        (rank, λ a d e. (at a d (in_steps a (depends→has g a d e.0)) e.0).1) in
      (g, rw (added, ◌>>=◌) (rw ((validate_iff range visits g).1 (closed, acyclic), ◌>>=◌) refl))
