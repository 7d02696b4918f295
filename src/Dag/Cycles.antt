-- ===== src/Dag/Cycles.antt =====
-- `detectCycle` of internal/workflow/dag/graph.go decides whether the graph has a cycle.
use platformfoundry_ce.Base.{
  ℕ, suc, String, ◌≡◌, refl, ◌↔◌, true, false, List, [], arith, length, ◌∈◌, All, All-at, All-of,
  contains-perm,
}
use mathlib.Core.List.Perm
use platformfoundry_ce.Base.Maps.{
  has, keys, flag-nil, unseen-le-length, length-keys, contains-keys, RangeOrder, VisitsAll,
}
use platformfoundry_ce.Dag.Graph.{Graph, closed_path, back_edge}
use platformfoundry_ce.Dag.Walks.{IsCycle, Acyclic, Acyclic-not-IsCycle, Finished-Acyclic}
use platformfoundry_ce.Dag.Search.{
  Outcome, clear, found, nil_node, out_of_fuel, fresh, detect_cycle, has_cycle,
}
use platformfoundry_ce.Dag.Search.Invariant.{Known, Ends, search_from-Ends}

-- What an outcome says of the graph. No graph makes the search fail.
abbrev pub Decides : Graph → Outcome → Type 0
Decides g (clear s) = Acyclic g
Decides g (found (closed_path c)) = IsCycle g c
Decides g (found (back_edge a b)) = ⊥
Decides g nil_node = ⊥
Decides g out_of_fuel = ⊥

fresh-Known : (g : Graph) → Known g [] fresh
fresh-Known g = record {
  finished = tt;
  done = λ a v o. ground (arith, flag-nil a);
  on_path = λ a o. ground (arith, flag-nil a);
}

Ends-Decides :
    (g : Graph) (ids : List String)
    → ((a : String) → has a g ≡ true → a ∈ ids)
    → (o : Outcome) → Ends g (λ fin'. All (λ id. id ∈ fin') ids) [] fresh o
    → Decides g o
Ends-Decides g ids all (clear s) (fin, grown, left) =
    Finished-Acyclic g fin grown.known.finished
      (λ a h. All-at (λ id. id ∈ fin) ids a left (all a h))
Ends-Decides g ids all (found (closed_path c)) e = e
Ends-Decides g ids all (found (back_edge a b)) e = e
Ends-Decides g ids all nil_node e = e
Ends-Decides g ids all out_of_fuel e = e

module _ (range : RangeOrder) (visits : VisitsAll range) (g : Graph) where
  pub ranged : (n : ℕ) (a : String) → a ∈ range n (keys g) → has a g ≡ true
  ranged n a m = rw (contains-keys g a) at (contains-perm _ _ a (visits n (keys g)) m)

  pub ranged_all : (n : ℕ) (a : String) → has a g ≡ true → a ∈ range n (keys g)
  ranged_all n a h = contains-perm _ _ a (Perm.symm (visits n (keys g))) (rw (contains-keys g a) h)

  -- For every order in which Go visits the map: the search ends without a nil dereference; if it
  -- reports a path, the path is a cycle of the graph; if it reports none, the graph has a rank
  -- that each edge lowers.
  pub detect_cycle-Decides : Decides g (detect_cycle range g)
  unfolding detect_cycle
  detect_cycle-Decides = Ends-Decides g (range 0 (keys g)) (ranged_all 0) _ (
      search_from-Ends g (suc (length g)) (range 0 (keys g)) [] fresh (fresh-Known g) flag-nil refl
        (All-of _ _ (ranged 0)) (omega (arith, unseen-le-length [] (keys g), length-keys {0} g)))

  -- `HasCycle` is true exactly if some walk of the graph returns to its start.
  pub has_cycle_iff : (has_cycle range g ≡ true) ↔ ((c : List String) × IsCycle g c)
  unfolding has_cycle
  has_cycle_iff = go (detect_cycle range g) detect_cycle-Decides
    where
      go :
          (o : Outcome)
          → Decides g o
          → ((elim o [ found c ↦ true | _ ↦ false ]) ≡ true) ↔ ((c : List String) × IsCycle g c)
      go (clear s) rank = (λ h. cc, λ (c, cycle). absurd (Acyclic-not-IsCycle g rank c cycle))
      go (found (closed_path c)) cycle = (λ h. (c, cycle), λ h. refl)
      go (found (back_edge a b)) h = elim h [ ]
      go nil_node h = elim h [ ]
      go out_of_fuel h = elim h [ ]
