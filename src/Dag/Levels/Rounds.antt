-- ===== src/Dag/Levels/Rounds.antt =====
-- The rounds of `GetParallelExecutionLevels` in internal/workflow/dag/graph.go.
use platformfoundry_ce.Base.{
  ℕ, zero, suc, ◌+◌, ◌≤◌, ◌<◌, String, ◌≡◌, refl, ap, subst, ◌∙◌, inl, inr, Bool, true, false, not,
  ◌&&◌, ◌||◌, List, [], ◌∷◌, ◌++◌, arith, eq_iff, eq_refl, Bool-cases, ltb, length, contains, ◌∈◌,
  ◌↔◌, All, All-map, contains-append, Distinct, Distinct-append, Distinct-perm, contains-select,
  select-Distinct, perm_of_same_members,
}
use mathlib.Core.List.Perm
use mathlib.Core.List.{append-nil, append_assoc}
use platformfoundry_ce.Base.Maps.{
  Map, insert, has, keys, flag, flag-insert, has-insert, unseen, unseen-insert, unseen-zero,
  length-insert_new, contains-keys, RangeOrder, VisitsAll,
}
use platformfoundry_ce.Dag.Graph.{Graph, get_dependencies}
use platformfoundry_ce.Dag.Cycles.{ranged, ranged_all}
use platformfoundry_ce.Dag.Layers.{Satisfied, IsLayered, IsSchedule, IsLayered-snoc}
use platformfoundry_ce.Dag.Levels.{all_completed, is_ready, complete, current_level, concat}

all_completed_iff :
    (g : Graph) (c : Map Bool) (deps : List String)
    → (all_completed g c deps ≡ true) ↔ All (λ d. has d g ≡ true → flag d c ≡ true) deps
unfolding all_completed
all_completed_iff g c [] = (λ h. tt, λ h. refl)
all_completed_iff g c (d ∷ deps) = (
  λ h. (λ k. ground arith, (all_completed_iff g c deps).0 (ground arith)),
  λ h. ground (arith, (all_completed_iff g c deps).1 h.1, h.0),
)

-- A dependency that holds a node back.
blocker :
    (g : Graph) (c : Map Bool) (deps : List String)
    → all_completed g c deps ≡ false
    → (d : String) × (d ∈ deps) × (has d g ≡ true) × (flag d c ≡ false)
unfolding all_completed
blocker g c [] h = cc
blocker g c (d ∷ deps) h = elim (Bool-cases (has d g && not (flag d c))) [
  | inl e ↦ (d, ground (arith, eq_refl d), ground arith, ground arith)
  | inr e ↦
      let (b, there, in_graph, new) = blocker g c deps (ground arith) in
      (b, ground arith, in_graph, new)
]

flag-complete :
    (ids : List String) (c : Map Bool) (a : String)
    → flag a (complete ids c) ≡ contains ids a || flag a c
unfolding complete
flag-complete [] c a = refl
flag-complete (id ∷ ids) c a =
    ground (arith, flag-complete ids (insert id true c) a, flag-insert id a true c)

concat-snoc :
    (levels : List (List String)) (level : List String)
    → concat (levels ++ level ∷ []) ≡ concat levels ++ level
unfolding concat
concat-snoc [] level = append-nil level
concat-snoc (l ∷ levels) level = rw append_assoc (ap (◌++◌ l) (concat-snoc levels level))

module _ (g : Graph) (keys_distinct : Distinct (keys g)) where
  -- The map `completed` holds as many keys as nodes of the graph are flagged.
  pub record IsCounted (c : Map Bool) : Type 0 where
    pub held : (a : String) → has a c ≡ flag a c
    pub counted : length c + unseen c (keys g) ≡ length g

  insert-IsCounted :
      (c : Map Bool) (id : String)
      → IsCounted c
      → has id g ≡ true
      → flag id c ≡ false
      → IsCounted (insert id true c)
  insert-IsCounted c id k in_graph new = record {
    held = λ a. ground (arith, has-insert id a true c, flag-insert id a true c, k.held a);
    counted = omega (
      arith,
      k.counted,
      length-insert_new id true c (k.held id ∙ new),
      unseen-insert c (keys g) id keys_distinct (contains-keys g id ∙ in_graph) new,
    );
  }

  complete-IsCounted :
      (ids : List String) (c : Map Bool)
      → IsCounted c
      → Distinct ids
      → ((a : String) → a ∈ ids → (has a g ≡ true) × (flag a c ≡ false))
      → IsCounted (complete ids c) × (length (complete ids c) ≡ length c + length ids)
  unfolding complete
  complete-IsCounted [] c k distinct fresh = (k, omega arith)
  complete-IsCounted (id ∷ ids) c k distinct fresh =
      let (in_graph, new) = fresh id (ground (arith, eq_refl id)) in
      let (k', size) =
        complete-IsCounted ids (insert id true c) (insert-IsCounted c id k in_graph new) distinct.1
          (λ a m. (
            (fresh a (ground arith)).0,
            ground (arith, flag-insert id a true c, fresh a, eq_iff id a, distinct.0),
          )) in
      (k', size ∙ omega (arith, length-insert_new id true c (k.held id ∙ new)))

  -- What holds between two rounds.
  pub record IsBetween (c : Map Bool) (levels : List (List String)) : Type 0 where
    pub is_counted : IsCounted c
    pub marked : (a : String) → flag a c ≡ contains (concat levels) a
    pub distinct : Distinct (concat levels)
    pub layered : IsLayered g [] levels
    pub within : (a : String) → a ∈ concat levels → has a g ≡ true

  -- If no node is ready then every rank is too small for the nodes that are left.
  pub stuck-le-rank :
      (rank : String → ℕ)
      → ((a b : String) → (b ∈ get_dependencies g a) × (has b g ≡ true) → rank b < rank a)
      → (c : Map Bool) → ((a : String) → has a g ≡ true → is_ready g c a ≡ false)
      → (n : ℕ) (a : String) → has a g ≡ true
      → flag a c ≡ false
      → n ≤ rank a
  unfolding is_ready
  stuck-le-rank rank falls c stuck zero a h new = omega arith
  stuck-le-rank rank falls c stuck (suc n) a h new =
      let (b, listed, in_graph, left) =
        blocker g c (get_dependencies g a) (ground (arith, stuck a h)) in
      omega
        (arith, falls a b (listed, in_graph), stuck-le-rank rank falls c stuck n b in_graph left)

  module _ (range : RangeOrder) (visits : VisitsAll range) where
    pub contains-level :
        (n : ℕ) (c : Map Bool) (a : String)
        → contains (current_level range g n c) a ≡ has a g && is_ready g c a
    unfolding current_level
    contains-level n c a = ground (
      arith,
      contains-select (is_ready g c) (range n (keys g)) a,
      ranged range visits g n a,
      ranged_all range visits g n a,
    )

    level_iff :
        (n : ℕ) (c : Map Bool) (done : List String)
        → ((a : String) → flag a c ≡ contains done a)
        → (a : String)
        → (a ∈ current_level range g n c)
          ↔ ((has a g ≡ true) × (contains done a ≡ false) × Satisfied g done a)
    unfolding is_ready
    level_iff n c done marked a = (
      λ m.
          let ready : has a g && is_ready g c a ≡ true =
            subst (λ t. t ≡ true) (contains-level n c a) m in
          (
            ground arith,
            ground (arith, marked a),
            All-map (get_dependencies g a) (λ d f k. cc (marked d, f k))
                ((all_completed_iff g c (get_dependencies g a)).0 (ground arith)),
          ),
      λ (in_graph, new, satisfied).
          let all =
            (all_completed_iff g c (get_dependencies g a)).1
              (All-map (get_dependencies g a) (λ d f k. cc (marked d, f k)) satisfied) in
          ground (arith, contains-level n c a, marked a, all),
    )

    level-Distinct : (n : ℕ) (c : Map Bool) → Distinct (current_level range g n c)
    unfolding current_level
    level-Distinct n c =
        select-Distinct (is_ready g c) (range n (keys g))
          (Distinct-perm _ _ (Perm.symm (visits n (keys g))) keys_distinct)

    pub round-IsBetween :
        (n : ℕ) (c : Map Bool) (levels : List (List String))
        → IsBetween c levels
        → let level = current_level range g n c in
          IsBetween (complete level c) (levels ++ level ∷ [])
          × (length (complete level c) ≡ length c + length level)
    round-IsBetween n c levels b =
        let level = current_level range g n c in
        let exact = level_iff n c (concat levels) b.marked in
        let (k, size) =
          complete-IsCounted level c b.is_counted (level-Distinct n c)
            (λ a m. (((exact a).0 m).0, b.marked a ∙ ((exact a).0 m).1)) in
        (
          record {
            is_counted = k;
            marked = λ a. rw concat-snoc (
                ground (
                  arith,
                  flag-complete level c a,
                  contains-append (concat levels) level a,
                  b.marked a,
                ));
            distinct = rw concat-snoc (
                Distinct-append (concat levels) level b.distinct (level-Distinct n c)
                  λ a m. ground (arith, (exact a).0));
            layered = IsLayered-snoc g [] levels level b.layered exact;
            within = λ a m. ground (
              arith,
              contains-append (concat levels) level a,
              ap (λ l. contains l a) (concat-snoc levels level),
              b.within a,
              (exact a).0,
            );
          },
          size,
        )

    pub finish :
        (c : Map Bool) (levels : List (List String))
        → IsBetween c levels
        → ltb (length c) (length g) ≡ false
        → IsSchedule g levels
    finish c levels b full = (
      b.layered,
      perm_of_same_members (concat levels) (keys g) b.distinct keys_distinct λ a. ground (
        arith,
        b.marked a,
        b.within a,
        contains-keys g a,
        unseen-zero c (keys g) a (ground (arith, b.is_counted.counted)),
      ),
    )
