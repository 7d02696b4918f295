-- ===== src/Dag/Links.antt =====
-- `AddNode` and `RemoveNode` of internal/workflow/dag/graph.go: what they do to the two lists of
-- neighbours that each node keeps.
use platformfoundry_ce.Base.{
  ◌-◌, String, ◌≡◌, refl, ap, sym, ◌∙◌, inl, inr, none, some, List, [], ◌∷◌, ◌++◌, arith, ◌==◌,
  eq_iff, eq_refl, if◌then◌else◌, Bool-cases, Option-cases, map_option, Distinct, count,
}
use mathlib.Core.List.{append-nil, append_assoc}
use platformfoundry_ce.Base.Maps.{
  lookup, insert, has, keys, adjust, lookup-insert, lookup-delete, lookup-adjust, keys-adjust,
  delete-Distinct,
}
use platformfoundry_ce.Dag.Graph.{
  Node, Graph, ok, link, add_node, add_dependent, drop_first, drop_dependent, unlink, remove_node,
}

-- What the loop of `AddNode` appends to the dependents of the node `k`.
unfoldable pub copies : String → String → List String → List String
copies k id [] = []
copies k id (d ∷ deps) = if d == k then id ∷ copies k id deps else copies k id deps

-- What the loop of `RemoveNode` leaves of the dependents of the node `k`.
unfoldable pub dropped : String → String → List String → List String → List String
dropped k id [] xs = xs
dropped k id (d ∷ deps) xs = dropped k id deps (if d == k then drop_first id xs else xs)

pub count-copies :
    (x k id : String) (deps : List String)
    → count x (copies k id deps) ≡ (if id == x then count k deps else 0)
unfolding count copies
count-copies x k id [] = ground arith
count-copies x k id (d ∷ deps) = ground (arith, count-copies x k id deps)

count-drop_first :
    (x id : String) (xs : List String)
    → count x (drop_first id xs) ≡ (if id == x then count x xs - 1 else count x xs)
unfolding count drop_first
count-drop_first x id [] = ground arith
count-drop_first x id (y ∷ xs) =
    ground (arith, count-drop_first x id xs, eq_iff y id, eq_iff y x, eq_iff id x)

pub count-dropped :
    (x k id : String) (deps xs : List String)
    → count x (dropped k id deps xs) ≡ (if id == x then count x xs - count k deps else count x xs)
unfolding count dropped
count-dropped x k id [] xs = ground arith
count-dropped x k id (d ∷ deps) xs = ground (
  arith,
  count-dropped x k id deps (if d == k then drop_first id xs else xs),
  count-drop_first x id xs,
)

abbrev pub with_more : List String → Node → Node
with_more ids node = record node { dependents = node.dependents ++ ids }

abbrev pub with_fewer : String → String → List String → Node → Node
with_fewer k id deps node = record node { dependents = dropped k id deps node.dependents }

pub lookup-link :
    (id : String) (deps : List String) (g : Graph) (k : String)
    → lookup k (link id deps g) ≡ map_option (with_more (copies k id deps)) (lookup k g)
unfolding link copies
lookup-link id [] g k = elim (Option-cases (lookup k g)) [
  | inl e ↦ rw e
  | inr (n, e) ↦ rw e (ap (λ l. some (record n { dependents = l })) (sym (append-nil n.dependents)))
]
lookup-link id (d ∷ deps) g k = elim (Option-cases (lookup k g)) [
  | inl e ↦
      rw (lookup-link id deps (adjust d (add_dependent id) g) k, lookup-adjust, e) (ground arith)
  | inr (n, e) ↦
      rw (lookup-link id deps (adjust d (add_dependent id) g) k, lookup-adjust, e)
        (ground (arith, append_assoc n.dependents (id ∷ []) (copies k id deps)))
]

lookup-unlink :
    (id : String) (deps : List String) (g : Graph) (k : String)
    → lookup k (unlink id deps g) ≡ map_option (with_fewer k id deps) (lookup k g)
unfolding unlink dropped
lookup-unlink id [] g k = elim (Option-cases (lookup k g)) [ inl e ↦ rw e | inr (n, e) ↦ rw e ]
lookup-unlink id (d ∷ deps) g k = elim (Option-cases (lookup k g)) [
  | inl e ↦
      rw (lookup-unlink id deps (adjust d (drop_dependent id) g) k, lookup-adjust, e) (ground arith)
  | inr (n, e) ↦
      rw (lookup-unlink id deps (adjust d (drop_dependent id) g) k, lookup-adjust, e) (ground arith)
]

drop_first-append :
    (id : String) (xs rest : List String)
    → count id xs ≡ 0
    → drop_first id (xs ++ id ∷ rest) ≡ xs ++ rest
unfolding drop_first count
drop_first-append id [] rest h = ground (arith, eq_refl id)
drop_first-append id (x ∷ xs) rest h = ground (arith, drop_first-append id xs rest)

-- `RemoveNode` drops again what `AddNode` appended.
pub dropped-copies :
    (k id : String) (deps xs : List String)
    → count id xs ≡ 0
    → dropped k id deps (xs ++ copies k id deps) ≡ xs
unfolding dropped copies
dropped-copies k id [] xs h = append-nil xs
dropped-copies k id (d ∷ deps) xs h = elim (Bool-cases (d == k)) [
  | inl e ↦ rw e (rw (drop_first-append id xs (copies k id deps) h) (dropped-copies k id deps xs h))
  | inr e ↦ rw e (dropped-copies k id deps xs h)
]

-- The loops change no key and no dependencies.
pub keys-link : (id : String) (deps : List String) (g : Graph) → keys (link id deps g) ≡ keys g
unfolding link
keys-link id [] g = refl
keys-link id (d ∷ deps) g =
    keys-link id deps (adjust d (add_dependent id) g) ∙ keys-adjust d (add_dependent id) g

pub keys-unlink : (id : String) (deps : List String) (g : Graph) → keys (unlink id deps g) ≡ keys g
unfolding unlink
keys-unlink id [] g = refl
keys-unlink id (d ∷ deps) g =
    keys-unlink id deps (adjust d (drop_dependent id) g) ∙ keys-adjust d (drop_dependent id) g

abbrev pub new_node : String → String → List String → Node
new_node id name deps = record { id = id; name = name; dependencies = deps; dependents = [] }

-- The graph that `AddNode` leaves, seen through its lookups.
pub lookup-add_node :
    (g g' : Graph) (id name : String) (deps : List String) (k : String)
    → add_node g id name deps ≡ ok g'
    → lookup k g'
      ≡ map_option
          (with_more (copies k id deps))
          (if id == k then some (new_node id name deps) else lookup k g)
unfolding add_node
lookup-add_node g g' id name deps k e = elim (Bool-cases (has id g)) [
  | inl old ↦ absurd (ground arith)
  | inr new ↦
      let same : link id deps (insert id (new_node id name deps) g) ≡ g' = ground arith in
      rw (← same) (
        lookup-link id deps (insert id (new_node id name deps) g) k
        ∙ ap (map_option (with_more (copies k id deps)))
            (lookup-insert id k (new_node id name deps) g))
]

pub lookup-remove_node :
    (g : Graph) (id k : String) {node : Node}
    → lookup id g ≡ some node
    → lookup k (remove_node g id)
      ≡ (if id == k then none else map_option (with_fewer k id node.dependencies) (lookup k g))
unfolding remove_node
lookup-remove_node g id k {node} e =
    rw (e, remove_node)
      (rw
        (lookup-delete id k (unlink id node.dependencies g), lookup-unlink id node.dependencies g k)
        refl)

pub remove_node_absent : (g : Graph) (id : String) → lookup id g ≡ none → remove_node g id ≡ g
unfolding remove_node
remove_node_absent g id e = rw (e, remove_node) refl

pub keys-remove_node-Distinct :
    (g : Graph) (id : String) → Distinct (keys g) → Distinct (keys (remove_node g id))
unfolding remove_node
keys-remove_node-Distinct g id h = elim (Option-cases (lookup id g)) [
  | inl e ↦ rw (e, remove_node) h
  | inr (node, e) ↦
      rw (e, remove_node)
        (delete-Distinct id (unlink id node.dependencies g)
          (rw (keys-unlink id node.dependencies g) h))
]
