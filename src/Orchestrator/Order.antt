-- ===== src/Orchestrator/Order.antt =====
-- What `Resolve` and `GetDependents` of internal/orchestrator/dependency.go promise.
use platformfoundry_ce.Base.{
  suc, String, ◌≡◌, refl, inl, inr, Option, none, some, List, [], arith, Bool-cases, contains,
  contains-perm, ◌∈◌, All, All-at, All-of, Distinct, Perm, perm_of_same_members,
}
use mathlib.Core.List.Perm
use platformfoundry_ce.Base.Maps.{
  keys, flag-nil, unseen-le-length, length-keys, contains-keys, RangeOrder, VisitsAll,
}
use platformfoundry_ce.Dag.Walks.{Acyclic, IsCycle, Acyclic-not-IsCycle}
use platformfoundry_ce.Dag.Layers.{IsOrdered}
use platformfoundry_ce.EdgeSearch.{Outcome, clear, found}
use platformfoundry_ce.Orchestrator.Dependency.{
  DependencyResolver, Walked, Resolved, resolved, circular, nil_node, out_of_fuel, sorted, resolve,
  collect, detect_cycles,
}
use platformfoundry_ce.Orchestrator.Decides.{batch, DecidesBatch, detect_cycles-Decides}
use platformfoundry_ce.Orchestrator.Postorder.{Good, Ends, visit_all-Ends}

-- What an answer says of the batch: its resources in an order, or a cycle. No batch makes the call
-- fail.
abbrev pub AnswersBatch : DependencyResolver → Resolved → Type 0
AnswersBatch dr (resolved rs) =
    (names : List String) × (rs ≡ collect dr.resources names)
    × Perm names (keys dr.resources)
    × IsOrdered (batch dr) [] names
    × ((c : List String) → ¬ IsCycle (batch dr) c)
AnswersBatch dr (circular a b) = (c : List String) × IsCycle (batch dr) c
AnswersBatch dr nil_node = ⊥
AnswersBatch dr out_of_fuel = ⊥

abbrev start : Walked
start = record { visited = []; stack = [] }

start-Good : (dr : DependencyResolver) → Good dr start
start-Good dr = record { distinct = tt; marked = λ a m. cc; inside = λ a m. cc; ordered = tt }

module _ (range : RangeOrder) (visits : VisitsAll range) (dr : DependencyResolver)
    (keys_distinct : Distinct (keys dr.resources)) where
  Ends-AnswersBatch :
      Acyclic (batch dr)
      → (o : Option Walked)
      → Ends dr (λ w. All (λ n. n ∈ w.stack) (range 1 (keys dr.resources))) start o
      → AnswersBatch dr
          (elim o [ none ↦ out_of_fuel | some w ↦ resolved (collect dr.resources w.stack) ])
  Ends-AnswersBatch acyclic none e = e
  Ends-AnswersBatch acyclic (some w) (good, grown, all) = (
    w.stack,
    refl,
    perm_of_same_members w.stack (keys dr.resources) good.distinct keys_distinct same,
    good.ordered,
    Acyclic-not-IsCycle (batch dr) acyclic,
  )
    where
      same : (a : String) → contains w.stack a ≡ contains (keys dr.resources) a
      same a = elim (Bool-cases (contains (keys dr.resources) a)) [
        | inl e ↦ rw e (
            All-at _ (range 1 (keys dr.resources)) a all
              (contains-perm _ _ a (Perm.symm (visits 1 (keys dr.resources))) e))
        | inr e ↦ ground (arith, good.inside a, contains-keys dr.resources a)
      ]

  sorted-AnswersBatch : Acyclic (batch dr) → AnswersBatch dr (sorted range dr)
  unfolding sorted
  sorted-AnswersBatch (rank, falls) =
      Ends-AnswersBatch (rank, falls) _
        (visit_all-Ends dr rank falls (suc _) (range 1 (keys dr.resources)) start (start-Good dr)
          (All-of _ _ (λ a m.
            rw (contains-keys dr.resources a) at
              (contains-perm _ _ a (visits 1 (keys dr.resources)) m)))
          (λ a h. ground (arith, flag-nil a))
          (omega (arith, unseen-le-length [] (keys dr.resources), length-keys {0} dr.resources)))

  -- For every order in which Go visits the maps, and resource names that are distinct: on a batch
  -- whose dependencies have no cycle, `Resolve` returns the resources under an order of their
  -- names that has each name once and after those of the batch that it depends on; where it
  -- returns the error, the batch has a cycle. It ends, with no nil dereference.
  pub resolve-AnswersBatch : AnswersBatch dr (resolve range dr)
  unfolding resolve
  resolve-AnswersBatch = answer (detect_cycles range dr) (detect_cycles-Decides range visits dr)
    where
      answer :
          (o : Outcome)
          → DecidesBatch dr o
          → AnswersBatch dr (elim o [
            | clear s ↦ sorted range dr
            | found a b ↦ circular a b
            | Outcome.nil_node ↦ nil_node
            | Outcome.out_of_fuel ↦ out_of_fuel
          ])
      answer (clear s) d = sorted-AnswersBatch d
      answer (found a b) d = d
      answer Outcome.nil_node d = d
      answer Outcome.out_of_fuel d = d
