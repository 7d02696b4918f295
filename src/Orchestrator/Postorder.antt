-- ===== src/Orchestrator/Postorder.antt =====
-- The closure `visit` of `Resolve` in internal/orchestrator/dependency.go: on a batch with no cycle
-- it stacks each resource behind those that it depends on.
use platformfoundry_ce.Base.{
  ℕ, zero, suc, ◌<◌, String, ◌≡◌, refl, inl, inr, true, false, Option, none, some, List, [], ◌∷◌,
  ◌++◌, arith, eq_refl, eq_iff, ◌==◌, Bool-cases, if◌then◌else◌, ◌||◌, contains, ◌∈◌, All, All-of,
  All-at, Distinct, Distinct-append, contains-append,
}
use mathlib.Core.List.{append-nil, append_assoc}
use platformfoundry_ce.Base.Maps.{
  has, flag, keys, flag-insert, unseen, unseen-anti, unseen-insert-lt, contains-keys,
}
use platformfoundry_ce.Dag.Graph.{Graph}
use platformfoundry_ce.Dag.Walks.{Edge}
use platformfoundry_ce.Dag.Layers.{Satisfied, IsOrdered}
use platformfoundry_ce.Orchestrator.Dependency.{
  DependencyResolver, Walked, dependencies, mark, push, and_then, visit_each, visit, visit_all,
}
use platformfoundry_ce.Orchestrator.Decides.{batch, has-nodes_of, get_dependencies-batch}

IsOrdered-snoc :
    (g : Graph) (done xs : List String) (a : String)
    → IsOrdered g done xs
    → Satisfied g (done ++ xs) a
    → IsOrdered g done (xs ++ a ∷ [])
IsOrdered-snoc g done [] a h last = (rw append-nil at last, tt)
IsOrdered-snoc g done (x ∷ xs) a h last =
    (h.0, IsOrdered-snoc g (done ++ x ∷ []) xs a h.1 (rw append_assoc last))

module _ (dr : DependencyResolver) where
  pub record Good (w : Walked) : Type 0 where
    pub distinct : Distinct w.stack
    pub marked : (a : String) → a ∈ w.stack → flag a w.visited ≡ true
    pub inside : (a : String) → a ∈ w.stack → has a dr.resources ≡ true
    pub ordered : IsOrdered (batch dr) [] w.stack

  pub record Grown (w w' : Walked) : Type 0 where
    pub more : (a : String) → a ∈ w.stack → a ∈ w'.stack
    pub seen : (a : String) → flag a w.visited ≡ true → flag a w'.visited ≡ true
    -- What is visited and not stacked was so before.
    pub left :
        (a : String)
        → flag a w'.visited ≡ true
        → contains w'.stack a ≡ false
        → flag a w.visited ≡ true
    -- What is stacked anew was not visited before.
    pub fresh : (a : String) → a ∈ w'.stack → contains w.stack a ≡ false → flag a w.visited ≡ false

  Grown-refl : (w : Walked) → Grown w w
  Grown-refl w = record { more = λ a h. h; seen = λ a h. h; left = λ a h k. h; fresh = λ a h k. cc }

  Grown-trans : {w₁ w₂ w₃ : Walked} → Grown w₁ w₂ → Grown w₂ w₃ → Grown w₁ w₃
  Grown-trans {w₁} {w₂} {w₃} p q = record {
    more = λ a h. q.more a (p.more a h);
    seen = λ a h. q.seen a (p.seen a h);
    left = λ a h k. p.left a (q.left a h k) (ground (arith, q.more a));
    fresh = λ a h k. elim (Bool-cases (contains w₂.stack a)) [
      | inl e ↦ p.fresh a e k
      | inr e ↦ ground (arith, q.fresh a h e, p.seen a)
    ];
  }

  -- A call ends with more stacked and `Q`, within its fuel.
  abbrev pub Ends : (Walked → Type 0) → Walked → Option Walked → Type 0
  Ends Q w none = ⊥
  Ends Q w (some w') = Good w' × Grown w w' × Q w'

  Ends-and_then :
      (Q R : Walked → Type 0) (w : Walked) (o : Option Walked) (f : Walked → Option Walked)
      → Ends Q w o
      → ((w' : Walked) → Good w' → Grown w w' → Q w' → Ends R w' (f w'))
      → Ends R w (and_then o f)
  Ends-and_then Q R w none f e next = e
  Ends-and_then Q R w (some w') f (good, grown, q) next = extend (f w') (next w' good grown q)
    where
      extend : (o : Option Walked) → Ends R w' o → Ends R w o
      extend none e = e
      extend (some t) (good', more, r) = (good', Grown-trans grown more, r)

  Ends-map :
      (Q R : Walked → Type 0) (w : Walked) (o : Option Walked)
      → ((w' : Walked) → Grown w w' → Q w' → R w')
      → Ends Q w o
      → Ends R w o
  Ends-map Q R w none f e = e
  Ends-map Q R w (some w') f (good, grown, q) = (good, grown, f w' grown q)

  module _ (rank : String → ℕ)
      (falls : (a b : String) → Edge (batch dr) a b → rank b < rank a) where
    -- What is visited and not stacked ranks above `n`.
    abbrev Above : String → Walked → Type 0
    Above n w =
        (a : String) → flag a w.visited ≡ true → contains w.stack a ≡ false → rank n < rank a

    Above-Grown : (n : String) (w w' : Walked) → Above n w → Grown w w' → Above n w'
    Above-Grown n w w' above grown a v out =
        above a (grown.left a v out) (ground (arith, grown.more a))

    abbrev Visits : ℕ → (String → Walked → Option Walked) → Type 0
    Visits fuel visit =
        (n : String) (w : Walked)
        → Good w
        → has n dr.resources ≡ true
        → Above n w
        → unseen w.visited (keys dr.resources) < fuel
        → Ends (λ w'. n ∈ w'.stack) w (visit n w)

    visit_each-Ends :
        (fuel : ℕ) (visit : String → Walked → Option Walked)
        → Visits fuel visit
        → (deps : List String) (w : Walked) → Good w
        → All (λ d. has d dr.resources ≡ true → Above d w) deps
        → unseen w.visited (keys dr.resources) < fuel
        → Ends
            (λ w'. All (λ d. has d dr.resources ≡ true → d ∈ w'.stack) deps)
            w
            (visit_each dr visit deps w)
    unfolding visit_each
    visit_each-Ends fuel visit visits [] w good above fueled = (good, Grown-refl w, tt)
    visit_each-Ends fuel visit visits (dep ∷ deps) w good above fueled =
        Ends-and_then (λ w'. has dep dr.resources ≡ true → dep ∈ w'.stack) _ w _ _ first
          λ w' good' grown m.
            Ends-map (λ v. All (λ d. has d dr.resources ≡ true → d ∈ v.stack) deps) _ w' _
              (λ v more rest. (λ h. more.more dep (m h), rest))
              (visit_each-Ends fuel visit visits deps w' good'
                (All-of _ deps
                  (λ d mem h. Above-Grown d w w' (All-at _ deps d above.1 mem h) grown))
                (omega
                  (arith, fueled, unseen-anti w.visited w'.visited (keys dr.resources) grown.seen)))
      where
        first :
            Ends
              (λ w'. has dep dr.resources ≡ true → dep ∈ w'.stack)
              w
              (if has dep dr.resources then visit dep w else some w)
        first = elim (Bool-cases (has dep dr.resources)) [
          | inl e ↦ rw e (
              Ends-map (λ w'. dep ∈ w'.stack) _ w _ (λ v more m h. m)
                (visits dep w good e (above.0 e) fueled))
          | inr e ↦ rw e (good, Grown-refl w, λ h. cc)
        ]

    mark-Good : (n : String) (w : Walked) → Good w → Good (mark n w)
    unfolding mark
    mark-Good n w good = record {
      distinct = good.distinct;
      marked = λ a m. ground (arith, good.marked a, flag-insert n a true w.visited);
      inside = good.inside;
      ordered = good.ordered;
    }

    -- Back from the dependencies of `n`, which are all stacked: `n` is stacked behind them.
    push-Grown :
        (n : String) (w v : Walked)
        → Good w
        → has n dr.resources ≡ true
        → flag n w.visited ≡ false
        → Good v
        → Grown (mark n w) v
        → All (λ d. has d dr.resources ≡ true → d ∈ v.stack) (dependencies dr n)
        → Good (push n v) × Grown w (push n v) × (n ∈ (push n v).stack)
    unfolding mark push
    push-Grown n w v good there new good' grown deps = (
      record {
        distinct =
            Distinct-append v.stack (n ∷ []) good'.distinct (refl, tt)
              (λ a m. ground (arith, apart, eq_iff n a));
        marked = λ a m. ground (
          arith,
          snoc a,
          good'.marked a,
          eq_iff n a,
          grown.seen n,
          flag-insert n n true w.visited,
          eq_refl n,
        );
        inside = λ a m. ground (arith, snoc a, good'.inside a, eq_iff n a);
        ordered = IsOrdered-snoc (batch dr) [] v.stack n good'.ordered satisfied;
      },
      record {
        more = λ a m. ground (arith, snoc a, grown.more a);
        seen = λ a h. grown.seen a (ground (arith, flag-insert n a true w.visited));
        left = λ a h k.
            ground (arith, snoc a, grown.left a, flag-insert n a true w.visited, eq_iff n a);
        fresh = λ a h k.
            ground (arith, snoc a, grown.fresh a, flag-insert n a true w.visited, eq_iff n a);
      },
      ground (arith, snoc n, eq_refl n),
    )
      where
        snoc : (a : String) → contains (v.stack ++ n ∷ []) a ≡ contains v.stack a || n == a
        snoc a = ground (arith, contains-append v.stack (n ∷ []) a)

        outside : contains w.stack n ≡ false
        outside = ground (arith, good.marked n)

        apart : contains v.stack n ≡ false
        apart = ground (arith, grown.fresh n, outside, flag-insert n n true w.visited, eq_refl n)

        satisfied : Satisfied (batch dr) v.stack n
        satisfied = rw (get_dependencies-batch dr n there) (
            All-of _ (dependencies dr n) (λ d m h.
              All-at _ (dependencies dr n) d deps m (rw (has-nodes_of dr dr.resources d) at h)))

    push-Ends :
        (n : String) (w : Walked) (o : Option Walked)
        → Good w
        → has n dr.resources ≡ true
        → flag n w.visited ≡ false
        → Ends
            (λ v. All (λ d. has d dr.resources ≡ true → d ∈ v.stack) (dependencies dr n))
            (mark n w)
            o
        → Ends (λ v. n ∈ v.stack) w (and_then o (λ v. some (push n v)))
    push-Ends n w none good there new e = e
    push-Ends n w (some v) good there new (good', grown, deps) =
        push-Grown n w v good there new good' grown deps

    -- All that is open ranks above the dependencies of `n` once `n` is marked.
    mark-Above :
        (n : String) (w : Walked)
        → has n dr.resources ≡ true
        → Above n w
        → All (λ d. has d dr.resources ≡ true → Above d (mark n w)) (dependencies dr n)
    unfolding mark
    mark-Above n w there above = All-of _ (dependencies dr n) λ d m h a v out.
        let lower =
          falls n d
            (rw (get_dependencies-batch dr n there) m, rw (has-nodes_of dr dr.resources d) h) in
        elim (Bool-cases (n == a)) [
          | inl e ↦ rw (← (eq_iff n a).0 e) lower
          | inr e ↦
              omega (arith, lower, above a (ground (arith, flag-insert n a true w.visited)) out)
        ]

    visit-Ends : (fuel : ℕ) → Visits fuel (visit dr fuel)
    unfolding visit mark
    visit-Ends zero n w good there above fueled = absurd (omega arith)
    visit-Ends (suc fuel) n w good there above fueled = elim (Bool-cases (flag n w.visited)) [
      | inl old ↦ rw (old, visit) (good, Grown-refl w, stacked old)
      | inr new ↦
          rw (new, visit)
            (push-Ends n w _ good there new (
              visit_each-Ends fuel (visit dr fuel) (visit-Ends fuel) (dependencies dr n) (mark n w)
                (mark-Good n w good) (mark-Above n w there above) (less new)))
    ]
      where
        stacked : flag n w.visited ≡ true → n ∈ w.stack
        stacked old = elim (Bool-cases (contains w.stack n)) [
          | inl e ↦ e
          | inr e ↦ absurd (omega (arith, above n old e))
        ]

        less : flag n w.visited ≡ false → unseen (mark n w).visited (keys dr.resources) < fuel
        less new = omega (
          arith,
          fueled,
          unseen-insert-lt w.visited (keys dr.resources) n (rw (contains-keys dr.resources n) there)
              new,
        )

    pub visit_all-Ends :
        (fuel : ℕ) (names : List String) (w : Walked)
        → Good w
        → All (λ n. has n dr.resources ≡ true) names
        → ((a : String) → flag a w.visited ≡ true → a ∈ w.stack)
        → unseen w.visited (keys dr.resources) < fuel
        → Ends (λ w'. All (λ n. n ∈ w'.stack) names) w (visit_all dr fuel names w)
    unfolding visit_all
    visit_all-Ends fuel [] w good there closed fueled = (good, Grown-refl w, tt)
    visit_all-Ends fuel (n ∷ names) w good there closed fueled =
        Ends-and_then (λ w'. n ∈ w'.stack) _ w _ _
          (visit-Ends fuel n w good there.0 (λ a v out. cc (closed a v, out)) fueled)
          λ w' good' grown m.
            Ends-map (λ v. All (λ n. n ∈ v.stack) names) _ w' _
              (λ v more rest. (more.more n m, rest))
              (visit_all-Ends fuel names w' good' there.1
                (λ a v. elim (Bool-cases (contains w'.stack a)) [
                  | inl e ↦ e
                  | inr e ↦ grown.more a (closed a (grown.left a v e))
                ])
                (omega
                  (arith, fueled, unseen-anti w.visited w'.visited (keys dr.resources) grown.seen)))
