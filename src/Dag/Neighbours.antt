-- ===== src/Dag/Neighbours.antt =====
-- The lists of neighbours in internal/workflow/dag/graph.go, before and after each call.
use platformfoundry_ce.Base.{
  ◌+◌, ◌-◌, ◌≤◌, String, ◌≡◌, refl, ap, ◌∙◌, inl, inr, false, some, List, ◌≢◌, ◌++◌, ◌∷◌, ◌||◌,
  contains-append, [], arith, ◌==◌, eq_iff, eq_refl, if◌then◌else◌, Bool-cases, Option-cases,
  contains, ◌∈◌, count, count-append, count-pos_iff, Distinct,
}
use platformfoundry_ce.Base.Maps.{
  lookup, insert, has, keys, lookup-absent, contains-keys, keys-insert_new, insert-Distinct,
}
use platformfoundry_ce.Dag.Graph.{
  Node, Graph, ok, new_graph, link, add_node, remove_node, get_dependencies, get_dependents,
}
use platformfoundry_ce.Dag.Links.{
  remove_node_absent, keys-remove_node-Distinct, copies, dropped-copies, with_more, new_node,
  count-copies, count-dropped, keys-link, lookup-add_node, lookup-remove_node,
}

-- Each ID names one node, which carries it; and whoever is listed as a dependent of `k` lists `k`
-- among its dependencies, at least as often.
pub record IsWellFormed (g : Graph) : Type 0 where
  pub keys_distinct : Distinct (keys g)
  pub named : (k : String) (n : Node) → lookup k g ≡ some n → n.id ≡ k
  pub linked : (k x : String) → count x (get_dependents g k) ≤ count k (get_dependencies g x)

pub new_graph-IsWellFormed : IsWellFormed new_graph
unfolding lookup keys get_dependents count
new_graph-IsWellFormed = record {
  keys_distinct = tt;
  named = λ k n e. cc;
  linked = λ k x. omega arith;
}

pub add_node_total :
    (g : Graph) (id name : String) (deps : List String)
    → has id g ≡ false
    → (g' : Graph) × (add_node g id name deps ≡ ok g')
unfolding add_node
add_node_total g id name deps h = (link id deps (insert id (new_node id name deps) g), rw h)

module _ (g g' : Graph) (id name : String) (deps : List String)
    (added : add_node g id name deps ≡ ok g') where
  pub fresh : has id g ≡ false
  unfolding add_node
  fresh = ground arith

  pub get_dependencies-add_node :
      (k : String) → get_dependencies g' k ≡ (if id == k then deps else get_dependencies g k)
  unfolding get_dependencies
  get_dependencies-add_node k = elim (Option-cases (lookup k g)) [
    | inl e ↦ ground (arith, lookup-add_node g g' id name deps k added)
    | inr (n, e) ↦ ground (arith, lookup-add_node g g' id name deps k added)
  ]

  -- `AddNode` lists the new node as a dependent of a node `k` as often as `k` stands among its
  -- dependencies, if `k` is in the graph, and changes no other entry.
  count-get_dependents-add_node :
      (k x : String)
      → count x (get_dependents g' k) ≡ (
          if has k g'
          then count x (get_dependents g k) + (if id == x then count k deps else 0)
          else 0)
  unfolding get_dependents has count
  count-get_dependents-add_node k x = elim (Option-cases (lookup k g)) [
    | inl e ↦ ground (arith, lookup-add_node g g' id name deps k added, count-copies x k id deps)
    | inr (n, e) ↦ ground (
      arith,
      lookup-add_node g g' id name deps k added,
      count-copies x k id deps,
      count-append x n.dependents (copies k id deps),
      eq_iff id k,
      lookup-absent id g fresh,
    )
  ]

  absent_dependencies : get_dependencies g id ≡ []
  unfolding get_dependencies
  absent_dependencies = rw (lookup-absent id g fresh, get_dependencies) refl

  add_node_lem : g' ≡ link id deps (insert id (new_node id name deps) g)
  unfolding add_node
  add_node_lem = ground arith

  pub keys-add_node : keys g' ≡ keys g ++ id ∷ []
  keys-add_node = rw (add_node_lem, keys-link) (keys-insert_new id (new_node id name deps) g fresh)

  pub has-add_node : (k : String) → has k g' ≡ has k g || id == k
  has-add_node k = ground (
    arith,
    contains-keys g k,
    contains-keys g' k,
    contains-append (keys g) (id ∷ []) k,
    ap (λ l. contains l k) keys-add_node,
  )

  -- A call of `AddNode` that succeeds keeps the graph well formed.
  pub add_node-IsWellFormed : IsWellFormed g → IsWellFormed g'
  unfolding count
  add_node-IsWellFormed w = record {
    keys_distinct =
        rw (add_node_lem, keys-link) (insert-Distinct id (new_node id name deps) g w.keys_distinct);
    named = λ k n e. elim (Option-cases (lookup k g)) [
      | inl h ↦ ground (arith, lookup-add_node g g' id name deps k added, eq_iff id k)
      | inr (m, h) ↦
          ground (arith, lookup-add_node g g' id name deps k added, eq_iff id k, w.named k m h)
    ];
    linked = λ k x. ground (
      arith,
      count-get_dependents-add_node k x,
      get_dependencies-add_node x,
      w.linked k x,
      eq_iff id x,
      absent_dependencies,
    );
  }

  -- In a well-formed graph, `RemoveNode` of `id` after `AddNode` of `id` leaves every entry as it
  -- was before both.
  pub remove_node-add_node :
      IsWellFormed g → (k : String) → lookup k (remove_node g' id) ≡ lookup k g
  unfolding get_dependents count
  remove_node-add_node w k =
      let at_id : lookup id g' ≡ some (with_more (copies id id deps) (new_node id name deps)) =
        lookup-add_node g g' id name deps id added ∙ rw eq_refl refl in
      lookup-remove_node g' id k at_id ∙ elim (Bool-cases (id == k)) [
        | inl e ↦ rw e (ground (arith, lookup-absent id g fresh, eq_iff id k))
        | inr e ↦ elim (Option-cases (lookup k g)) [
          | inl h ↦ rw e (ground (arith, lookup-add_node g g' id name deps k added))
          | inr (n, h) ↦ rw e (
              ground (
                arith,
                lookup-add_node g g' id name deps k added,
                dropped-copies k id deps n.dependents,
                w.linked k id,
                absent_dependencies,
              ))
        ]
      ]

module _ (g : Graph) (id : String) where
  removed_dependencies :
      (x : String)
      → get_dependencies (remove_node g id) x ≡ (if id == x then [] else get_dependencies g x)
  unfolding get_dependencies
  removed_dependencies x = elim (Option-cases (lookup id g)) [
    | inl e ↦ rw (remove_node_absent g id e) (ground (arith, eq_iff id x))
    | inr (node, e) ↦ elim (Option-cases (lookup x g)) [
      | inl h ↦ ground (arith, lookup-remove_node g id x e)
      | inr (n, h) ↦ ground (arith, lookup-remove_node g id x e)
    ]
  ]

  removed_dependents :
      (k x : String)
      → count x (get_dependents (remove_node g id) k) ≡ (
          if id == k
          then 0
          else if id == x
          then count x (get_dependents g k) - count k (get_dependencies g id)
          else count x (get_dependents g k))
  unfolding get_dependents get_dependencies count
  removed_dependents k x = elim (Option-cases (lookup id g)) [
    | inl e ↦ rw (remove_node_absent g id e) (ground (arith, eq_iff id k))
    | inr (node, e) ↦ elim (Option-cases (lookup k g)) [
      | inl h ↦ ground (arith, lookup-remove_node g id k e)
      | inr (n, h) ↦
          ground (
            arith,
            lookup-remove_node g id k e,
            count-dropped x k id node.dependencies n.dependents,
          )
    ]
  ]

  -- `RemoveNode` keeps the graph well formed, whether the node is there or not.
  pub remove_node-IsWellFormed : IsWellFormed g → IsWellFormed (remove_node g id)
  unfolding count
  remove_node-IsWellFormed w = record {
    keys_distinct = keys-remove_node-Distinct g id w.keys_distinct;
    named = λ k n e. elim (Option-cases (lookup id g)) [
      | inl h ↦ w.named k n (rw (remove_node_absent g id h) at e)
      | inr (node, h) ↦ elim (Option-cases (lookup k g)) [
        | inl h' ↦ ground (arith, lookup-remove_node g id k h)
        | inr (m, h') ↦ ground (arith, lookup-remove_node g id k h, w.named k m h')
      ]
    ];
    linked = λ k x.
        ground (arith, removed_dependents k x, removed_dependencies x, w.linked k x, eq_iff id x);
  }

-- Whoever is reported as a dependent of `k` in a well-formed graph depends on `k`.
pub get_dependents-depends :
    (g : Graph) (k x : String) → IsWellFormed g → x ∈ get_dependents g k → k ∈ get_dependencies g x
get_dependents-depends g k x w m =
    (count-pos_iff k (get_dependencies g x)).0
      (omega (arith, w.linked k x, (count-pos_iff x (get_dependents g k)).1 m))

-- Behind a call of `AddNode` for `id` that succeeds, no other node is among the dependents of
-- `id`, also not a node that was added before and names `id` among its dependencies.
pub add_node_forgets :
    (g g' : Graph) (id name : String) (deps : List String) (x : String)
    → add_node g id name deps ≡ ok g'
    → id ≢ x
    → contains (get_dependents g' id) x ≡ false
unfolding get_dependents count
add_node_forgets g g' id name deps x added other = ground (
  arith,
  count-get_dependents-add_node g g' id name deps added id x,
  lookup-absent id g (fresh g g' id name deps added),
  eq_iff id x,
  (count-pos_iff x (get_dependents g' id)).1,
)
