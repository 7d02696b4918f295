-- ===== src/Dag/Walks.antt =====
-- What the search of internal/workflow/dag/graph.go decides, with no word of how: the edges of a
-- graph, walks along them, cycles, and a rank that every edge lowers.
use platformfoundry_ce.Base.{
  ℕ, suc, ◌≤◌, ◌<◌, String, ◌≡◌, ap, inl, inr, true, false, List, [], ◌∷◌, ◌++◌, arith, ◌==◌,
  eq_iff, if◌then◌else◌, Bool-cases, subst, length, contains, ◌∈◌, All, All-at,
}
use platformfoundry_ce.Base.Maps.{has, lookup-absent}
use platformfoundry_ce.Dag.Graph.{Graph, get_dependencies}
use platformfoundry_ce.Dag.Search.{from_first}

get_dependencies_absent : (g : Graph) (a : String) → has a g ≡ false → get_dependencies g a ≡ []
unfolding get_dependencies
get_dependencies_absent g a h = rw (lookup-absent a g h, get_dependencies)

-- What depends on something is in the graph.
pub depends→has : (g : Graph) (a b : String) → b ∈ get_dependencies g a → has a g ≡ true
depends→has g a b m = elim (Bool-cases (has a g)) [
  | inl h ↦ h
  | inr h ↦ absurd (cc (get_dependencies_absent g a h, m))
]

-- `a` depends on `b`, and both are in the graph.
abbrev pub Edge : Graph → String → String → Type 0
Edge g a b = (b ∈ get_dependencies g a) × (has b g ≡ true)

-- From `a` along edges through all of the list.
abbrev pub Steps : Graph → String → List String → Type 0
Steps g a [] = Unit
Steps g a (b ∷ bs) = Edge g a b × Steps g b bs

abbrev pub Walk : Graph → List String → Type 0
Walk g [] = Unit
Walk g (a ∷ bs) = Steps g a bs

-- A walk of one edge or more that ends where it begins.
abbrev pub IsCycle : Graph → List String → Type 0
IsCycle g c = (a : String) × (mid : List String) × (c ≡ a ∷ mid ++ a ∷ []) × Walk g c

-- Each edge leads to a lower rank.
abbrev pub Acyclic : Graph → Type 0
Acyclic g = (rank : String → ℕ) × ((a b : String) → Edge g a b → rank b < rank a)

module _ (g : Graph) where
  pub Steps-snoc :
      (a : String) (mid : List String) (b c : String)
      → Steps g a (mid ++ b ∷ [])
      → Edge g b c
      → Steps g a ((mid ++ b ∷ []) ++ c ∷ [])
  Steps-snoc a [] b c w e = (w.0, (e, tt))
  Steps-snoc a (x ∷ mid) b c w e = (w.0, Steps-snoc x mid b c w.1 e)

  pub Walk-snoc :
      (xs : List String) (b c : String)
      → Walk g (xs ++ b ∷ [])
      → Edge g b c
      → Walk g ((xs ++ b ∷ []) ++ c ∷ [])
  Walk-snoc [] b c w e = (e, tt)
  Walk-snoc (x ∷ xs) b c w e = Steps-snoc x xs b c w e

  Walk-tail : (x : String) (xs : List String) → Walk g (x ∷ xs) → Walk g xs
  Walk-tail x [] w = tt
  Walk-tail x (y ∷ ys) w = w.1

  -- The part of a walk from the first `a` on, closed by `a`, is a cycle.
  pub from_first-IsCycle :
      (a : String) (xs : List String)
      → a ∈ xs
      → Walk g (xs ++ a ∷ [])
      → IsCycle g (from_first a xs ++ a ∷ [])
  unfolding from_first
  from_first-IsCycle a [] m w = cc
  from_first-IsCycle a (x ∷ xs) m w = elim (Bool-cases (x == a)) [
    | inl e ↦ rw e (a, xs, ap (λ y. y ∷ xs ++ a ∷ []) ((eq_iff x a).0 e), w)
    | inr e ↦ rw e (from_first-IsCycle a xs (ground arith) (Walk-tail x (xs ++ a ∷ []) w))
  ]

  Steps-rank :
      (rank : String → ℕ)
      → ((a b : String) → Edge g a b → rank b < rank a)
      → (a : String) (mid : List String) (b : String) → Steps g a (mid ++ b ∷ [])
      → rank b < rank a
  Steps-rank rank falls a [] b w = falls a b w.0
  Steps-rank rank falls a (x ∷ mid) b w =
      omega (arith, falls a x w.0, Steps-rank rank falls x mid b w.1)

  pub Acyclic-not-IsCycle : Acyclic g → (c : List String) → ¬ IsCycle g c
  Acyclic-not-IsCycle (rank, falls) c (a, mid, e, w) =
      let h : Steps g a (mid ++ a ∷ []) = subst (Walk g) e w in
      absurd (omega (arith, Steps-rank rank falls a mid a h))

  -- Newest first: the dependencies in the graph of each entry stand behind it.
  abbrev pub Finished : List String → Type 0
  Finished [] = Unit
  Finished (x ∷ xs) = All (λ d. has d g ≡ true → d ∈ xs) (get_dependencies g x) × Finished xs

  -- The distance of the last occurrence from the end.
  height : List String → String → ℕ
  height [] a = 0
  height (x ∷ xs) a = if contains xs a then height xs a else suc (length xs)

  height-le-length : (xs : List String) (a : String) → height xs a ≤ length xs
  unfolding height
  height-le-length [] a = omega arith
  height-le-length (x ∷ xs) a = ground (arith, height-le-length xs a)

  height-falls :
      (xs : List String) (a b : String)
      → Finished xs
      → a ∈ xs
      → Edge g a b
      → (b ∈ xs) × (height xs b < height xs a)
  unfolding height
  height-falls [] a b f m e = cc
  height-falls (x ∷ xs) a b f m e = elim (Bool-cases (contains xs a)) [
    | inl later ↦ let (h, k) = height-falls xs a b f.1 later e in (ground arith, rw later (rw h k))
    | inr last ↦
        let same = (eq_iff x a).0 (ground arith) in
        let h =
          All-at _ (get_dependencies g a) b
            (subst (λ y. All (λ d. has d g ≡ true → d ∈ xs) (get_dependencies g y)) same f.0) e.0
            e.1 in
        (ground arith, rw last (rw h (omega (arith, height-le-length xs b))))
  ]

  pub Finished-Acyclic :
      (xs : List String) → Finished xs → ((a : String) → has a g ≡ true → a ∈ xs) → Acyclic g
  Finished-Acyclic xs f all =
      (height xs, λ a b e. (height-falls xs a b f (all a (depends→has g a b e.0)) e).1)
