-- ===== src/Environment/Resolver.antt =====
-- internal/environment/resolver.go: a platform merged with the overrides of an environment. Labels,
-- annotations and tags are Go maps, which a copy of the platform shares: they are cells of a heap,
-- and a field has the reference of its cell, none for nil. Of the platform there are the fields
-- that the code reads or writes, and of an override only whether it is a text.
use platformfoundry_ce.Base.{
  ℕ, suc, String, Bool, ◌&&◌, ◌||◌, Option, none, some, List, [], ◌∷◌, if◌then◌else◌, leb, ◌==◌,
}
use Prim.Native.String
use platformfoundry_ce.Base.Maps.{Map, lookup, insert, keys, RangeOrder}

abbrev pub Ref : Type 0
Ref = ℕ

abbrev pub same_ref : Ref → Ref → Bool
same_ref a b = leb a b && leb b a

pub record Heap : Type 0 where
  pub next : Ref
  pub cells : Ref → Map String

pub data Value : Type 0 where
  text : String → Value
  other : Value

pub record Overrides : Type 0 where
  pub infrastructure : Map Value
  pub orchestrator : Map Value
  pub observability : Map Value
  pub devex : Map Value
  pub global : Map Value
  pub tags : Map String

-- `promotes_to` is none without a promotion or with an empty target.
pub record Environment : Type 0 where
  pub name : String
  pub environment_type : String
  pub overrides : Overrides
  pub promotes_to : Option String

pub record Platform : Type 0 where
  pub environment : String
  pub region : String
  pub labels : Option Ref
  pub annotations : Option Ref
  pub tags : Option Ref

-- What a read of a map finds; a nil map is empty.
unfoldable pub read : Heap → Option Ref → Map String
read h none = []
read h (some r) = h.cells r

unfoldable pub write : Ref → (Map String → Map String) → Heap → Heap
write ref f h = record h { cells = λ r. if same_ref r ref then f (h.cells r) else h.cells r }

-- `if m == nil { m = make(map[string]string) }`
unfoldable pub made : Option Ref → Heap → Ref × Heap
made (some r) h = (r, h)
made none h =
    (h.next, record { next = suc h.next; cells = λ r. if same_ref r h.next then [] else h.cells r })

-- A loop that stores the overrides under these keys that are texts, each under a longer key.
unfoldable pub annotate : String → Map Value → List String → Map String → Map String
annotate prefix values [] cell = cell
annotate prefix values (k ∷ ks) cell = annotate prefix values ks (elim (lookup k values) [
  | none ↦ cell
  | some (text s) ↦ insert (String.◌++◌ prefix k) s cell
  | some other ↦ cell
])

-- The keys of the global overrides without those of `region` and `tags`.
unfoldable pub other_fields : List String → List String
other_fields [] = []
other_fields (k ∷ ks) =
    let rest = other_fields ks in if k == "region" || k == "tags" then rest else k ∷ rest

unfoldable pub merge_tags : Map String → List String → Map String → Map String
merge_tags tags [] cell = cell
merge_tags tags (k ∷ ks) cell =
    merge_tags tags ks (elim (lookup k tags) [ none ↦ cell | some v ↦ insert k v cell ])

unfoldable pub region_of : Overrides → Platform → String
region_of overrides p = elim (lookup "region" overrides.global) [
  | none ↦ p.region
  | some (text region) ↦ region
  | some other ↦ p.region
]

-- All the writes to the annotations; on an empty map a loop does nothing, so the tests that skip it
-- are left out.
unfoldable pub all_annotations : RangeOrder → Overrides → Map String → Map String
all_annotations range o cell = annotate "env.devex." o.devex (range 4 (keys o.devex)) (
    annotate "env.observability." o.observability (range 3 (keys o.observability)) (
      annotate "env.orchestrator." o.orchestrator (range 2 (keys o.orchestrator)) (
        annotate "env.infrastructure." o.infrastructure (range 1 (keys o.infrastructure))
          (annotate "env.override." o.global (other_fields (range 0 (keys o.global))) cell))))

unfoldable pub apply_tags : RangeOrder → Map String → Platform → Heap → Platform × Heap
apply_tags range [] p h = (p, h)
apply_tags range (entry ∷ entries) p h =
    let (r, h') = made p.tags h in
    (
      record p { tags = some r },
      write r (merge_tags (entry ∷ entries) (range 5 (keys (entry ∷ entries)))) h',
    )

unfoldable pub apply_overrides : RangeOrder → Overrides → Platform → Heap → Platform × Heap
apply_overrides range o p h =
    let (r, h') = made p.annotations h in
    apply_tags range o.tags (record p { region = region_of o p; annotations = some r })
      (write r (all_annotations range o) h')

-- The end of `Resolve`.
unfoldable pub set_labels : Environment → Platform × Heap → Platform × Heap
set_labels env (p, h) =
    let (r, h') = made p.labels h in
    (
      record p { environment = env.name; labels = some r },
      write r
          (λ cell.
            insert "environment-profile" env.name (insert "environment" env.environment_type cell))
          h',
    )

unfoldable pub resolve : RangeOrder → Option Environment → Platform → Heap → Platform × Heap
resolve range none p h = (p, h)
resolve range (some env) p h = set_labels env (apply_overrides range env.overrides p h)
