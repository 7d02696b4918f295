-- ===== src/Dag/Search/Invariant.antt =====
-- The search of internal/workflow/dag/graph.go: what each call of its closure keeps.
use platformfoundry_ce.Base.{
  ℕ, zero, suc, ◌<◌, String, ◌≡◌, refl, ap, ◌∙◌, inl, inr, true, false, some, List, [], ◌∷◌, ◌++◌,
  arith, eq_refl, if◌then◌else◌, Bool-cases, ◌∈◌, All, All-of, contains-append,
}
use platformfoundry_ce.Base.Maps.{
  lookup, insert, has, keys, flag, flag-insert, unseen, unseen-anti, unseen-insert-lt, lookup-has,
  contains-keys,
}
use platformfoundry_ce.Dag.Graph.{Node, Graph, closed_path, back_edge, get_dependencies}
use platformfoundry_ce.Dag.Walks.{Edge, Walk, IsCycle, Walk-snoc, from_first-IsCycle, Finished}
use platformfoundry_ce.Dag.Search.{
  State, Outcome, clear, found, nil_node, out_of_fuel, and_then, drop_last, enter, leave, cycle_at,
  visit_dep, visit_deps, dfs, search_from,
}

drop_last-snoc : (xs : List String) (x : String) → drop_last (xs ++ x ∷ []) ≡ xs
unfolding drop_last
drop_last-snoc [] x = refl
drop_last-snoc (y ∷ []) x = refl
drop_last-snoc (y ∷ z ∷ xs) x = ap (λ r. y ∷ r) (drop_last-snoc (z ∷ xs) x)

module _ (g : Graph) where
  -- `fin` lists the nodes that the search has left, each before those that it depends on.
  pub record Known (fin : List String) (s : State) : Type 0 where
    pub finished : Finished g fin
    pub done : (a : String) → flag a s.visited ≡ true → flag a s.recursion_stack ≡ false → a ∈ fin
    pub on_path : (a : String) → flag a s.recursion_stack ≡ true → a ∈ s.traversal_path

  -- What holds between the state before a call and after it.
  pub record Grown (fin : List String) (s : State) (fin' : List String) (s' : State) : Type 0 where
    pub known : Known fin' s'
    pub more : (a : String) → a ∈ fin → a ∈ fin'
    pub seen : (a : String) → flag a s.visited ≡ true → flag a s'.visited ≡ true
    pub stack : (a : String) → flag a s'.recursion_stack ≡ true → flag a s.recursion_stack ≡ true
    pub path : s'.traversal_path ≡ s.traversal_path

  Grown-refl : (fin : List String) (s : State) → Known fin s → Grown fin s fin s
  Grown-refl fin s k = record {
    known = k;
    more = λ a h. h;
    seen = λ a h. h;
    stack = λ a h. h;
    path = refl;
  }

  Grown-trans :
      {f₁ f₂ f₃ : List String} {s₁ s₂ s₃ : State}
      → Grown f₁ s₁ f₂ s₂
      → Grown f₂ s₂ f₃ s₃
      → Grown f₁ s₁ f₃ s₃
  Grown-trans p q = record {
    known = q.known;
    more = λ a h. q.more a (p.more a h);
    seen = λ a h. q.seen a (p.seen a h);
    stack = λ a h. p.stack a (q.stack a h);
    path = q.path ∙ p.path;
  }

  -- A call ends with more known and `Q`, or with a cycle; it neither fails nor runs out of fuel.
  abbrev pub Ends : (List String → Type 0) → List String → State → Outcome → Type 0
  Ends Q fin s (clear s') = (fin' : List String) × Grown fin s fin' s' × Q fin'
  Ends Q fin s (found (closed_path c)) = IsCycle g c
  Ends Q fin s (found (back_edge a b)) = ⊥
  Ends Q fin s nil_node = ⊥
  Ends Q fin s out_of_fuel = ⊥

  Ends-map :
      (Q R : List String → Type 0) (fin : List String) (s : State) (o : Outcome)
      → ((fin' : List String) → ((a : String) → a ∈ fin → a ∈ fin') → Q fin' → R fin')
      → Ends Q fin s o
      → Ends R fin s o
  Ends-map Q R fin s (clear s') f (fin', grown, q) = (fin', grown, f fin' grown.more q)
  Ends-map Q R fin s (found (closed_path c)) f e = e
  Ends-map Q R fin s (found (back_edge a b)) f e = e
  Ends-map Q R fin s nil_node f e = e
  Ends-map Q R fin s out_of_fuel f e = e

  Ends-and_then :
      (Q R : List String → Type 0) (fin : List String) (s : State) (o : Outcome)
      (f : State → Outcome)
      → Ends Q fin s o
      → ((fin' : List String) (s' : State) → Grown fin s fin' s' → Q fin' → Ends R fin' s' (f s'))
      → Ends R fin s (and_then o f)
  Ends-and_then Q R fin s (clear s') f (fin', grown, q) next = extend (f s') (next fin' s' grown q)
    where
      extend : (o : Outcome) → Ends R fin' s' o → Ends R fin s o
      extend (clear t) (fin'', more, r) = (fin'', Grown-trans grown more, r)
      extend (found (closed_path c)) e = e
      extend (found (back_edge a b)) e = e
      extend nil_node e = e
      extend out_of_fuel e = e
  Ends-and_then Q R fin s (found (closed_path c)) f e next = e
  Ends-and_then Q R fin s (found (back_edge a b)) f e next = e
  Ends-and_then Q R fin s nil_node f e next = e
  Ends-and_then Q R fin s out_of_fuel f e next = e

  -- What a recursive call promises while fewer than `fuel` nodes are unvisited.
  abbrev Visits : ℕ → (String → State → Outcome) → Type 0
  Visits fuel visit =
      (id : String) (s : State) (fin : List String)
      → Known fin s
      → has id g ≡ true
      → flag id s.visited ≡ false
      → Walk g (s.traversal_path ++ id ∷ [])
      → unseen s.visited (keys g) < fuel
      → Ends (λ fin'. id ∈ fin') fin s (visit id s)

  -- The search stands at `id`, below the nodes `above`.
  record At (fuel : ℕ) (id : String) (above fin : List String) (s : State) : Type 0 where
    known : Known fin s
    here : s.traversal_path ≡ above ++ id ∷ []
    walk : Walk g (above ++ id ∷ [])
    fueled : unseen s.visited (keys g) < fuel

  module _ (fuel : ℕ) (visit : String → State → Outcome) (visits : Visits fuel visit) (id : String)
      (above : List String) where
    cycle_at-Ends :
        (Q : List String → Type 0) (dep : String) (fin : List String) (s : State)
        → At fuel id above fin s
        → Edge g id dep
        → flag dep s.recursion_stack ≡ true
        → Ends Q fin s (found (cycle_at id dep s.traversal_path))
    unfolding cycle_at
    cycle_at-Ends Q dep fin s at edge on =
        let m = at.known.on_path dep on in
        rw (m, cycle_at)
          (from_first-IsCycle g dep s.traversal_path m
            (rw at.here (Walk-snoc g above id dep at.walk edge)))

    visit_dep_cases :
        (Q : List String → Type 0) (dep : String) (fin : List String) (s : State)
        → At fuel id above fin s
        → dep ∈ get_dependencies g id
        → (has dep g ≡ false → (fin' : List String) → Q fin')
        → ((fin' : List String) → dep ∈ fin' → Q fin')
        → Ends Q fin s (visit_dep g visit id dep s)
    unfolding visit_dep
    visit_dep_cases Q dep fin s at listed outside left = elim (Bool-cases (has dep g)) [
      | inr out ↦ rw (out, visit_dep) (fin, Grown-refl fin s at.known, outside out fin)
      | inl in_graph ↦ elim (Bool-cases (flag dep s.visited)) [
        | inr new ↦
            rw (in_graph, new, visit_dep)
              (Ends-map (λ fin'. dep ∈ fin') Q fin s (visit dep s) (λ fin' more m. left fin' m)
                (visits dep s fin at.known in_graph new
                  (rw at.here (Walk-snoc g above id dep at.walk (listed, in_graph))) at.fueled))
        | inl old ↦ elim (Bool-cases (flag dep s.recursion_stack)) [
          | inl on ↦
              rw (in_graph, old, on, visit_dep) (cycle_at-Ends Q dep fin s at (listed, in_graph) on)
          | inr off ↦
              rw (in_graph, old, off, visit_dep)
                (fin, Grown-refl fin s at.known, left fin (at.known.done dep old off))
        ]
      ]
    ]

    visit_dep-Ends :
        (dep : String) (fin : List String) (s : State)
        → At fuel id above fin s
        → dep ∈ get_dependencies g id
        → Ends (λ fin'. has dep g ≡ true → dep ∈ fin') fin s (visit_dep g visit id dep s)
    visit_dep-Ends dep fin s at listed =
        visit_dep_cases (λ fin'. has dep g ≡ true → dep ∈ fin') dep fin s at listed
          (λ out fin' h. cc) (λ fin' m h. m)

    At-Grown :
        (fin : List String) (s : State) (fin' : List String) (s' : State)
        → At fuel id above fin s
        → Grown fin s fin' s'
        → At fuel id above fin' s'
    At-Grown fin s fin' s' at grown = record {
      known = grown.known;
      here = grown.path ∙ at.here;
      walk = at.walk;
      fueled = omega (arith, at.fueled, unseen-anti s.visited s'.visited (keys g) grown.seen);
    }

    visit_deps-Ends :
        (deps : List String) (fin : List String) (s : State)
        → At fuel id above fin s
        → All (λ d. d ∈ get_dependencies g id) deps
        → Ends
            (λ fin'. All (λ d. has d g ≡ true → d ∈ fin') deps)
            fin
            s
            (visit_deps g visit id deps s)
    unfolding visit_deps
    visit_deps-Ends [] fin s at listed = (fin, Grown-refl fin s at.known, tt)
    visit_deps-Ends (dep ∷ deps) fin s at listed =
        Ends-and_then (λ fin'. has dep g ≡ true → dep ∈ fin')
          (λ fin'. All (λ d. has d g ≡ true → d ∈ fin') (dep ∷ deps)) fin s _ _
          (visit_dep-Ends dep fin s at listed.0)
          λ fin' s' grown first.
            Ends-map (λ l. All (λ d. has d g ≡ true → d ∈ l) deps) _ fin' s' _
              (λ l more rest. (λ h. more dep (first h), rest))
              (visit_deps-Ends deps fin' s' (At-Grown fin s fin' s' at grown) listed.1)

  enter-Known : (id : String) (fin : List String) (s : State) → Known fin s → Known fin (enter id s)
  unfolding enter
  enter-Known id fin s k = record {
    finished = k.finished;
    done = λ a v o.
        k.done a
          (ground (arith, flag-insert id a true s.visited, flag-insert id a true s.recursion_stack))
          (ground (arith, flag-insert id a true s.recursion_stack));
    on_path = λ a o. ground (
      arith,
      contains-append s.traversal_path (id ∷ []) a,
      flag-insert id a true s.recursion_stack,
      k.on_path a,
    );
  }

  -- Back from a node all of whose dependencies are left: it is left too.
  leave-Grown :
      (id : String) (fin fin' : List String) (s t : State)
      → Known fin s
      → Grown fin (enter id s) fin' t
      → All (λ d. has d g ≡ true → d ∈ fin') (get_dependencies g id)
      → Grown fin s (id ∷ fin') (leave id t)
  unfolding enter leave
  leave-Grown id fin fin' s t k grown deps = record {
    known = record {
      finished = (deps, grown.known.finished);
      done = λ a v o. ground (arith, flag-insert id a false t.recursion_stack, grown.known.done a);
      on_path = λ a o. rw restored (k.on_path a (below a o));
    };
    more = λ a h. ground (arith, grown.more a);
    seen = λ a h. grown.seen a (ground (arith, flag-insert id a true s.visited));
    stack = below;
    path = restored;
  }
    where
      below :
          (a : String)
          → flag a (insert id false t.recursion_stack) ≡ true
          → flag a s.recursion_stack ≡ true
      below a o = ground (
        arith,
        flag-insert id a false t.recursion_stack,
        grown.stack a,
        flag-insert id a true s.recursion_stack,
      )

      restored : drop_last t.traversal_path ≡ s.traversal_path
      restored = ap drop_last grown.path ∙ drop_last-snoc s.traversal_path id

  get_dependencies_lem :
      (id : String) {node : Node}
      → lookup id g ≡ some node
      → get_dependencies g id ≡ node.dependencies
  unfolding get_dependencies
  get_dependencies_lem id e = rw (e, get_dependencies)

  leave-Ends :
      (id : String) (fin : List String) (s : State) (o : Outcome)
      → Known fin s
      → Ends
          (λ fin'. All (λ d. has d g ≡ true → d ∈ fin') (get_dependencies g id))
          fin
          (enter id s)
          o
      → Ends (λ fin'. id ∈ fin') fin s (and_then o (λ t. clear (leave id t)))
  leave-Ends id fin s (clear t) k (fin', grown, deps) =
      (id ∷ fin', leave-Grown id fin fin' s t k grown deps, ground (arith, eq_refl id))
  leave-Ends id fin s (found (closed_path c)) k e = e
  leave-Ends id fin s (found (back_edge a b)) k e = e
  leave-Ends id fin s nil_node k e = e
  leave-Ends id fin s out_of_fuel k e = e

  enter-At :
      (fuel : ℕ) (id : String) (fin : List String) (s : State)
      → Known fin s
      → has id g ≡ true
      → flag id s.visited ≡ false
      → Walk g (s.traversal_path ++ id ∷ [])
      → unseen s.visited (keys g) < suc fuel
      → At fuel id s.traversal_path fin (enter id s)
  unfolding enter
  enter-At fuel id fin s k h new walk fueled = record {
    known = enter-Known id fin s k;
    here = refl;
    walk = walk;
    fueled =
        omega
          (arith, fueled, unseen-insert-lt s.visited (keys g) id (rw (contains-keys g id) h) new);
  }

  dfs-Ends : (fuel : ℕ) → Visits fuel (dfs g fuel)
  unfolding dfs
  dfs-Ends zero id s fin k h new walk fueled = absurd (omega arith)
  dfs-Ends (suc fuel) id s fin k h new walk fueled =
      let (node, e) = lookup-has id g h in
      let same = get_dependencies_lem id e in
      rw (e, dfs)
        (leave-Ends id fin s _ k (
          rw same (
            visit_deps-Ends fuel (dfs g fuel) (dfs-Ends fuel) id s.traversal_path node.dependencies
              fin (enter id s) (enter-At fuel id fin s k h new walk fueled)
              (rw same (All-of _ node.dependencies (λ a m. m))))))

  pub search_from-Ends :
      (fuel : ℕ) (ids : List String) (fin : List String) (s : State)
      → Known fin s
      → ((a : String) → flag a s.recursion_stack ≡ false)
      → s.traversal_path ≡ []
      → All (λ id. has id g ≡ true) ids
      → unseen s.visited (keys g) < fuel
      → Ends (λ fin'. All (λ id. id ∈ fin') ids) fin s (search_from g fuel ids s)
  unfolding search_from
  search_from-Ends fuel [] fin s k empty path all fueled = (fin, Grown-refl fin s k, tt)
  search_from-Ends fuel (id ∷ ids) fin s k empty path all fueled =
      Ends-and_then (λ fin'. id ∈ fin') (λ fin'. All (λ id. id ∈ fin') (id ∷ ids)) fin s _ _ first
        λ fin' s' grown m.
          Ends-map (λ l. All (λ id. id ∈ l) ids) _ fin' s' _ (λ l more rest. (more id m, rest))
            (search_from-Ends fuel ids fin' s' grown.known
              (λ a. ground (arith, grown.stack a, empty a)) (grown.path ∙ path) all.1
              (omega (arith, fueled, unseen-anti s.visited s'.visited (keys g) grown.seen)))
    where
      first :
          Ends (λ fin'. id ∈ fin') fin s (if flag id s.visited then clear s else dfs g fuel id s)
      first = elim (Bool-cases (flag id s.visited)) [
        | inl old ↦ rw old (fin, Grown-refl fin s k, k.done id old (empty id))
        | inr new ↦ rw new (dfs-Ends fuel id s fin k all.0 new (rw path tt) fueled)
      ]
