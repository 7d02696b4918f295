-- ===== src/Environment/Sharing.antt =====
-- internal/environment/resolver.go: what the copy that `Resolve` makes shares with its original.
use platformfoundry_ce.Base.{
  String, ◌≡◌, refl, sym, subst, ◌∙◌, Option, some, [], ◌∷◌, arith, eq_refl,
}
use platformfoundry_ce.Base.Maps.{Map, lookup, insert, lookup-insert, RangeOrder}
use platformfoundry_ce.Environment.Resolver.{
  Ref, Heap, Environment, Overrides, Platform, read, write, made, apply_tags, apply_overrides,
  set_labels, resolve,
}

apply_tags-labels :
    (range : RangeOrder) (tags : Map String) (p : Platform) (h : Heap)
    → (apply_tags range tags p h).0.labels ≡ p.labels
unfolding apply_tags
apply_tags-labels range [] p h = refl
apply_tags-labels range (entry ∷ entries) p h = refl

pub apply_overrides-labels :
    (range : RangeOrder) (o : Overrides) (p : Platform) (h : Heap)
    → (apply_overrides range o p h).0.labels ≡ p.labels
unfolding apply_overrides
apply_overrides-labels range o p h = apply_tags-labels range o.tags _ _

-- A platform with labels keeps their map, and its `environment` is that of the last call.
set_labels-labels :
    (env : Environment) (q : Platform × Heap) (l : Ref)
    → q.0.labels ≡ some l
    → ((set_labels env q).0.labels ≡ some l)
      × (lookup "environment" (read (set_labels env q).1 (some l)) ≡ some env.environment_type)
unfolding set_labels made write read
set_labels-labels env (p, h) l e = rw e (
  refl,
  ground (
    arith,
    lookup-insert "environment-profile" "environment" env.name
        (insert "environment" env.environment_type (h.cells l)),
    lookup-insert "environment" "environment" env.environment_type (h.cells l),
    eq_refl "environment",
  ),
)

resolve-labels :
    (range : RangeOrder) (env : Environment) (p : Platform) (h : Heap) (l : Ref)
    → p.labels ≡ some l
    → ((resolve range (some env) p h).0.labels ≡ some l)
      × (lookup "environment" (read (resolve range (some env) p h).1 (some l))
          ≡ some env.environment_type)
unfolding resolve
resolve-labels range env p h l e =
    set_labels-labels env (apply_overrides range env.overrides p h) l
      (apply_overrides-labels range env.overrides p h ∙ e)

-- A platform whose labels are not nil: when it is resolved for one environment, its own label
-- `environment` becomes that environment's type; when it is then resolved for another, the label
-- of the first result becomes the other's type, as that of the platform itself.
pub resolve_shares_labels :
    (range : RangeOrder) (first second : Environment) (p : Platform) (h : Heap) (l : Ref)
    → p.labels ≡ some l
    → let r : Platform × Heap = resolve range (some first) p h in
      let h' : Heap = (resolve range (some second) p r.1).1 in
      (lookup "environment" (read r.1 p.labels) ≡ some first.environment_type)
      × (lookup "environment" (read h' p.labels) ≡ some second.environment_type)
      × (lookup "environment" (read h' r.0.labels) ≡ some second.environment_type)
resolve_shares_labels range first second p h l e =
    let (same, here) = resolve-labels range first p h l e in
    let (again, there) = resolve-labels range second p (resolve range (some first) p h).1 l e in
    let reads : Heap → Environment → Option Ref → Type 0 =
      λ x env ref. lookup "environment" (read x ref) ≡ some env.environment_type in
    (
      subst (reads (resolve range (some first) p h).1 first) (sym e) here,
      subst (reads (resolve range (some second) p (resolve range (some first) p h).1).1 second)
          (sym e) there,
      subst (reads (resolve range (some second) p (resolve range (some first) p h).1).1 second)
          (sym same) there,
    )
