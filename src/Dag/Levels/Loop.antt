-- ===== src/Dag/Levels/Loop.antt =====
-- The loop of `GetParallelExecutionLevels` in internal/workflow/dag/graph.go ends with all nodes
-- in levels.
use platformfoundry_ce.Base.{
  ℕ, zero, suc, ◌+◌, ◌<◌, String, ◌≡◌, refl, ap, sym, ◌∙◌, inl, inr, Bool, true, false, List, [],
  ◌∷◌, arith, Bool-cases, ltb, ltb→lt, length, contains, Distinct, List-cases,
}
use platformfoundry_ce.Base.Maps.{
  Map, has, keys, flag-nil, has-nil, unseen-nil, unseen-pos, length-keys, contains-keys, RangeOrder,
  VisitsAll,
}
use platformfoundry_ce.Dag.Graph.{Graph, Result, ok, err, unresolved}
use platformfoundry_ce.Dag.Walks.{Acyclic}
use platformfoundry_ce.Dag.Layers.{IsSchedule}
use platformfoundry_ce.Dag.Levels.{is_ready, current_level, levels_from, concat}
use platformfoundry_ce.Dag.Levels.Rounds.{
  IsBetween, stuck-le-rank, contains-level, round-IsBetween, finish,
}

next_level :
    (level : List String) (next : Result (List (List String)))
    → ¬ (level ≡ [])
    → (elim level [ [] ↦ err unresolved | id ∷ ids ↦ next ]) ≡ next
next_level [] next h = absurd (h refl)
next_level (id ∷ ids) next h = refl

module _ (g : Graph) (keys_distinct : Distinct (keys g)) (range : RangeOrder)
    (visits : VisitsAll range) where
  pub start-IsBetween : IsBetween g keys_distinct [] []
  unfolding concat
  start-IsBetween = record {
    is_counted = record {
      held = λ a. has-nil a ∙ sym (flag-nil a);
      counted = omega (arith, unseen-nil (keys g), length-keys {0} g);
    };
    marked = λ a. flag-nil a;
    distinct = tt;
    layered = tt;
    within = λ a m. cc;
  }

  -- A node is left while the loop runs, so one of least rank is ready.
  level-ne-nil :
      Acyclic g
      → (n : ℕ) (c : Map Bool) (levels : List (List String)) → IsBetween g keys_distinct c levels
      → length c < length g
      → ¬ (current_level range g n c ≡ [])
  level-ne-nil (rank, falls) n c levels b open_nodes e =
      let (a, there, new) = unseen-pos c (keys g) (omega (arith, b.is_counted.counted)) in
      let in_graph = sym (contains-keys g a) ∙ there in
      let stuck : (x : String) → has x g ≡ true → is_ready g c x ≡ false = λ x h.
        ground
          (arith, contains-level g keys_distinct range visits n c x, ap (λ l. contains l x) e) in
      absurd (
        omega
          (arith, stuck-le-rank g keys_distinct rank falls c stuck (suc (rank a)) a in_graph new))

  pub levels_from-IsSchedule :
      Acyclic g
      → (fuel n : ℕ) (c : Map Bool) (levels : List (List String))
      → IsBetween g keys_distinct c levels
      → length g < fuel + length c
      → (out : List (List String)) × (levels_from range g fuel n c levels ≡ ok out)
        × IsSchedule g out
  unfolding levels_from
  levels_from-IsSchedule acyclic zero n c levels b fueled =
      absurd (omega (arith, fueled, b.is_counted.counted))
  levels_from-IsSchedule acyclic (suc fuel) n c levels b fueled =
      elim (Bool-cases (ltb (length c) (length g))) [
        | inr full ↦ (
          levels,
          rw (full, levels_from) refl,
          finish g keys_distinct range visits c levels b full,
        )
        | inl more ↦ elim (List-cases (current_level range g n c)) [
          | inl none_ready ↦ absurd (level-ne-nil acyclic n c levels b (ltb→lt _ _ more) none_ready)
          | inr (id, ids, e) ↦
              let (b', size) = round-IsBetween g keys_distinct range visits n c levels b in
              let (out, r, s) =
                levels_from-IsSchedule acyclic fuel (suc n) _ _ b'
                  (omega (arith, fueled, size, ap length e)) in
              (out, rw (more, levels_from) (next_level _ _ (λ h. cc (e, h)) ∙ r), s)
        ]
      ]
