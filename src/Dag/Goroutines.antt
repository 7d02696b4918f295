-- ===== src/Dag/Goroutines.antt =====
-- The goroutines of internal/workflow/dag/executor.go and internal/engine/coordinator.go: those of a
-- level start together, and the next level waits for them. They are taken one after the other, in
-- an order that is left open.
use platformfoundry_ce.Base.{
  ℕ, suc, String, ◌≡◌, sym, ap, ◌∙◌, List, [], ◌∷◌, ◌++◌, arith, contains-append, contains-perm,
  ◌∈◌, All-of, Perm,
}
use mathlib.Core.List.{append-nil, append_assoc}
use mathlib.Core.List.Perm
use platformfoundry_ce.Base.Maps.{RangeOrder, VisitsAll}
use platformfoundry_ce.Dag.Graph.{Graph}
use platformfoundry_ce.Dag.Layers.{Satisfied-mono, IsLayered, IsOrdered, IsOrdered-append}
use platformfoundry_ce.Dag.Levels.{concat}

-- The first list is the second without some of its entries.
pub data Within : List String → List String → Type 0 where
  empty : Within [] []
  takes : {xs ys : List String} (a : String) → Within xs ys → Within (a ∷ xs) (a ∷ ys)
  leaves : {xs ys : List String} (a : String) → Within xs ys → Within xs (a ∷ ys)

pub Within-nil : (ys : List String) → Within [] ys
Within-nil [] = empty
Within-nil (y ∷ ys) = leaves y (Within-nil ys)

pub Within-append :
    {xs ys zs ws : List String} → Within xs ys → Within zs ws → Within (xs ++ zs) (ys ++ ws)
Within-append empty q = q
Within-append (takes a p) q = takes a (Within-append p q)
Within-append (leaves a p) q = leaves a (Within-append p q)

pub contains-Within : {xs ys : List String} (a : String) → Within xs ys → a ∈ xs → a ∈ ys
contains-Within a empty m = m
contains-Within a (takes b h) m = ground (arith, contains-Within a h)
contains-Within a (leaves b h) m = ground (arith, contains-Within a h)

-- The levels one after the other, each in the order of its goroutines.
unfoldable pub goroutines : RangeOrder → ℕ → List (List String) → List String
goroutines order n [] = []
goroutines order n (level ∷ levels) = order n level ++ goroutines order (suc n) levels

-- What was started in between, in the order of what was to run.
abbrev pub Adds : List String → List String → List String → Type 0
Adds before ids after = (more : List String) × (after ≡ before ++ more) × Within more ids

pub Adds-none : (xs ids : List String) → Adds xs ids xs
Adds-none xs ids = ([], sym (append-nil xs), Within-nil ids)

pub Adds-trans :
    (xs ys zs ids jds : List String) → Adds xs ids ys → Adds ys jds zs → Adds xs (ids ++ jds) zs
Adds-trans xs ys zs ids jds (more, e, w) (later, e', w') =
    (more ++ later, e' ∙ ap (λ s. s ++ later) e ∙ append_assoc xs more later, Within-append w w')

module _ (order : RangeOrder) (visits : VisitsAll order) (g : Graph) where
  pub goroutines-IsOrdered :
      (n : ℕ) (done more : List String) (levels : List (List String))
      → ((a : String) → a ∈ done → a ∈ more)
      → IsLayered g done levels
      → IsOrdered g more (goroutines order n levels)
  unfolding goroutines
  goroutines-IsOrdered n done more [] grows h = tt
  goroutines-IsOrdered n done more (level ∷ levels) grows h =
      IsOrdered-append g more (order n level) (goroutines order (suc n) levels)
        (All-of _ (order n level) (λ a m.
          Satisfied-mono g done more a grows
            (((h.0 a).0 (contains-perm _ _ a (visits n level) m)).2)))
        (goroutines-IsOrdered (suc n) (done ++ level) (more ++ order n level) levels
          (λ a m. ground (
            arith,
            contains-append done level a,
            contains-append more (order n level) a,
            grows a,
            contains-perm _ _ a (Perm.symm (visits n level)),
          ))
          h.1)

  pub goroutines-Perm :
      (n : ℕ) (levels : List (List String)) → Perm (goroutines order n levels) (concat levels)
  unfolding goroutines concat
  goroutines-Perm n [] = Perm.refl []
  goroutines-Perm n (level ∷ levels) = Perm.append (visits n level) (goroutines-Perm (suc n) levels)
