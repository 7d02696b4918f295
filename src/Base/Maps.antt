-- ===== src/Base/Maps.antt =====
-- A Go map with string keys, as an association list in which each key stands once.
use platformfoundry_ce.Base.Lists.{length, contains, Distinct}
use platformfoundry_ce.Base.Tests.{if◌then◌else◌, Bool-cases, Option-cases, map_option}
use Prim.Native.Nat.{ℕ, suc, ◌≤◌, ◌<◌}
use Prim.Native.String.{String}
use mathlib.Core.Path.{◌≡◌, refl, subst}
use mathlib.Core.Logic.{inl, inr}
use mathlib.Core.Bool.{Bool, true, false, not, ◌&&◌, ◌||◌}
use mathlib.Core.Option.{Option, none, some}
use mathlib.Core.List.{List, [], ◌∷◌, ◌++◌, Perm}
use native.Mathlib.Omega.{arith}
use text.Mathlib.Text.{◌==◌}
use text.Mathlib.TextEquality.{eq_iff}
use text.Mathlib.TextPositions.{eq_refl}

abbrev pub Map {ℓ} : Type ℓ → Type ℓ
Map V = List (String × V)

module _ {ℓ} {V : Type ℓ} where
  unfoldable pub lookup : String → Map V → Option V
  lookup key [] = none
  lookup key ((k, v) ∷ rest) = if k == key then some v else lookup key rest

  -- `m[key] = new`
  unfoldable pub insert : String → V → Map V → Map V
  insert key new [] = (key, new) ∷ []
  insert key new ((k, v) ∷ rest) =
      if k == key then (key, new) ∷ rest else (k, v) ∷ insert key new rest

  -- `delete(m, k)`
  unfoldable pub delete : String → Map V → Map V
  delete k [] = []
  delete k ((j, w) ∷ m) = let rest = delete k m in if j == k then rest else (j, w) ∷ rest

  -- The keys that the map holds.
  unfoldable pub keys : Map V → List String
  keys [] = []
  keys ((j, v) ∷ m) = j ∷ keys m

  -- `_, exists := m[k]`
  unfoldable pub has : String → Map V → Bool
  has k m = elim (lookup k m) [ none ↦ false | some v ↦ true ]

  -- A write through a pointer that the map holds under `k`.
  unfoldable pub adjust : String → (V → V) → Map V → Map V
  adjust k f m = elim (lookup k m) [ none ↦ m | some v ↦ insert k (f v) m ]

  pub lookup-insert :
      (k j : String) (new : V) (m : Map V)
      → lookup j (insert k new m) ≡ (if k == j then some new else lookup j m)
  unfolding insert lookup
  lookup-insert k j new [] = refl
  lookup-insert k j new ((old, v) ∷ rest) =
      ground (arith, lookup-insert k j new rest, eq_iff old k, eq_iff old j, eq_iff k j)

  pub lookup-delete :
      (k j : String) (m : Map V) → lookup j (delete k m) ≡ (if k == j then none else lookup j m)
  unfolding lookup delete
  lookup-delete k j [] = ground arith
  lookup-delete k j ((i, w) ∷ m) =
      ground (arith, eq_iff k j, eq_iff i k, eq_iff i j, lookup-delete k j m)

  pub has-insert : (k j : String) (v : V) (m : Map V) → has j (insert k v m) ≡ k == j || has j m
  unfolding has
  has-insert k j v m = ground (arith, lookup-insert k j v m)

  pub has-delete : (k j : String) (m : Map V) → has j (delete k m) ≡ not (k == j) && has j m
  unfolding has
  has-delete k j m = ground (arith, lookup-delete k j m)

  pub contains-keys : (m : Map V) (k : String) → contains (keys m) k ≡ has k m
  unfolding keys has lookup
  contains-keys [] k = refl
  contains-keys ((j, v) ∷ m) k = ground (arith, contains-keys m k)

  pub has-adjust : (k j : String) (f : V → V) (m : Map V) → has j (adjust k f m) ≡ has j m
  unfolding adjust has
  has-adjust k j f m = elim (Option-cases (lookup k m)) [
    | inl e ↦ rw (e, adjust) refl
    | inr (v, e) ↦ rw (e, adjust) (ground (arith, lookup-insert k j (f v) m, eq_iff k j))
  ]

  pub lookup-adjust_ne :
      (k j : String) (f : V → V) (m : Map V)
      → (k == j) ≡ false
      → lookup j (adjust k f m) ≡ lookup j m
  unfolding adjust
  lookup-adjust_ne k j f m h = elim (Option-cases (lookup k m)) [
    | inl e ↦ rw (e, adjust)
    | inr (v, e) ↦ rw (e, adjust) (rw (lookup-insert, h))
  ]

  pub lookup-adjust_self :
      (k : String) (f : V → V) (m : Map V) {v : V}
      → lookup k m ≡ some v
      → lookup k (adjust k f m) ≡ some (f v)
  unfolding adjust
  lookup-adjust_self k f m e = rw (e, adjust) (rw (lookup-insert, eq_refl))

  at_key :
      (k : String) (f : V → V) (m : Map V) → lookup k (adjust k f m) ≡ map_option f (lookup k m)
  unfolding adjust
  at_key k f m = elim (Option-cases (lookup k m)) [
    | inl e ↦ rw (e, adjust) e
    | inr (v, e) ↦ rw (e, adjust) (rw (lookup-insert, eq_refl))
  ]

  pub lookup-adjust :
      (k j : String) (f : V → V) (m : Map V)
      → lookup j (adjust k f m) ≡ (if k == j then map_option f (lookup j m) else lookup j m)
  lookup-adjust k j f m = elim (Bool-cases (k == j)) [
    | inr e ↦ rw e (lookup-adjust_ne k j f m e)
    | inl e ↦
        let same = (eq_iff k j).0 e in
        rw e (subst (λ i. lookup i (adjust k f m) ≡ map_option f (lookup i m)) same (at_key k f m))
  ]

  pub insert-Distinct :
      (k : String) (v : V) (m : Map V) → Distinct (keys m) → Distinct (keys (insert k v m))
  unfolding keys insert
  insert-Distinct k v [] h = (refl, tt)
  insert-Distinct k v ((j, w) ∷ m) h = ground (
    arith,
    contains-keys (insert k v m) j,
    contains-keys m j,
    has-insert k j v m,
    eq_iff j k,
    eq_iff k j,
    insert-Distinct k v m h.1,
  )

  pub delete-Distinct : (k : String) (m : Map V) → Distinct (keys m) → Distinct (keys (delete k m))
  unfolding keys delete
  delete-Distinct k [] h = tt
  delete-Distinct k ((j, w) ∷ m) h = ground (
    arith,
    contains-keys (delete k m) j,
    contains-keys m j,
    has-delete k j m,
    delete-Distinct k m h.1,
  )

  pub keys-insert_new :
      (k : String) (v : V) (m : Map V) → has k m ≡ false → keys (insert k v m) ≡ keys m ++ k ∷ []
  unfolding keys insert has lookup
  keys-insert_new k v [] h = refl
  keys-insert_new k v ((j, w) ∷ m) h = ground (arith, keys-insert_new k v m)

  pub keys-insert_old :
      (k : String) (v : V) (m : Map V) → has k m ≡ true → keys (insert k v m) ≡ keys m
  unfolding keys insert has lookup
  keys-insert_old k v [] h = cc
  keys-insert_old k v ((j, w) ∷ m) h = ground (arith, keys-insert_old k v m, eq_iff j k)

  pub keys-adjust : (k : String) (f : V → V) (m : Map V) → keys (adjust k f m) ≡ keys m
  unfolding adjust
  keys-adjust k f m = elim (Option-cases (lookup k m)) [
    | inl e ↦ rw (e, adjust)
    | inr (v, e) ↦ rw (e, adjust) (keys-insert_old k (f v) m (unfold has in rw (e, has)))
  ]

  pub length-insert_new :
      (k : String) (v : V) (m : Map V) → has k m ≡ false → length (insert k v m) ≡ suc (length m)
  unfolding insert has lookup
  length-insert_new k v [] h = refl
  length-insert_new k v ((j, w) ∷ m) h = ground (arith, length-insert_new k v m)

  pub length-keys : (m : Map V) → length (keys m) ≡ length m
  unfolding keys
  length-keys [] = refl
  length-keys ((j, v) ∷ m) = omega (arith, length-keys m)

  pub lookup-has : (k : String) (m : Map V) → has k m ≡ true → (v : V) × (lookup k m ≡ some v)
  unfolding has
  lookup-has k m h = ground arith

  pub has-lookup : (k : String) (m : Map V) {v : V} → lookup k m ≡ some v → has k m ≡ true
  unfolding has
  has-lookup k m e = rw (e, has)

  pub lookup-absent : (k : String) (m : Map V) → has k m ≡ false → lookup k m ≡ none
  unfolding has
  lookup-absent k m h = ground arith

-- `m[k]` of a `map[string]bool`: false on a missing key.
unfoldable pub flag : String → Map Bool → Bool
flag k m = elim (lookup k m) [ none ↦ false | some b ↦ b ]

pub flag-insert :
    (k j : String) (b : Bool) (m : Map Bool)
    → flag j (insert k b m) ≡ (if k == j then b else flag j m)
unfolding flag
flag-insert k j b m = ground (arith, lookup-insert k j b m)

pub flag-nil : (k : String) → flag k [] ≡ false
unfolding flag lookup
flag-nil k = refl

pub has-nil : (k : String) → has {V = Bool} k [] ≡ false
unfolding has lookup
has-nil k = refl

-- How many of the names are not flagged.
pub unseen : Map Bool → List String → ℕ
unseen m [] = 0
unseen m (k ∷ ks) = if flag k m then unseen m ks else suc (unseen m ks)

pub unseen-nil : (ks : List String) → unseen [] ks ≡ length ks
unfolding unseen
unseen-nil [] = refl
unseen-nil (k ∷ ks) = ground (arith, flag-nil k, unseen-nil ks)

pub unseen-le-length : (m : Map Bool) (ks : List String) → unseen m ks ≤ length ks
unfolding unseen
unseen-le-length m [] = omega arith
unseen-le-length m (k ∷ ks) = ground (arith, unseen-le-length m ks)

-- To flag more names leaves fewer.
pub unseen-anti :
    (m m' : Map Bool) (ks : List String)
    → ((k : String) → flag k m ≡ true → flag k m' ≡ true)
    → unseen m' ks ≤ unseen m ks
unfolding unseen
unseen-anti m m' [] grows = omega arith
unseen-anti m m' (k ∷ ks) grows = ground (arith, unseen-anti m m' ks grows, grows k)

pub unseen-insert-lt :
    (m : Map Bool) (ks : List String) (k : String)
    → contains ks k ≡ true
    → flag k m ≡ false
    → unseen (insert k true m) ks < unseen m ks
unfolding unseen
unseen-insert-lt m [] k h new = cc
unseen-insert-lt m (j ∷ ks) k h new =
    let rest = unseen-anti m (insert k true m) ks (λ j h. ground (arith, flag-insert k j true m)) in
    elim (Bool-cases (j == k)) [
      | inl e ↦
          let same = (eq_iff j k).0 e in
          rw same (ground (arith, flag-insert k k true m, eq_refl k, rest))
      | inr e ↦
          ground (arith, unseen-insert-lt m ks k, flag-insert k j true m, eq_iff j k, eq_iff k j)
    ]

pub unseen-insert_outside :
    (m : Map Bool) (ks : List String) (k : String)
    → contains ks k ≡ false
    → unseen (insert k true m) ks ≡ unseen m ks
unfolding unseen
unseen-insert_outside m [] k out = refl
unseen-insert_outside m (j ∷ ks) k out =
    ground (arith, unseen-insert_outside m ks k, flag-insert k j true m, eq_iff j k, eq_iff k j)

pub unseen-insert :
    (m : Map Bool) (ks : List String) (k : String)
    → Distinct ks
    → contains ks k ≡ true
    → flag k m ≡ false
    → suc (unseen (insert k true m) ks) ≡ unseen m ks
unfolding unseen
unseen-insert m [] k distinct h new = cc
unseen-insert m (j ∷ ks) k distinct h new = elim (Bool-cases (j == k)) [
  | inl e ↦
      let same = (eq_iff j k).0 e in
      let apart : contains ks k ≡ false = subst (λ x. contains ks x ≡ false) same distinct.0 in
      rw same
        (ground (arith, flag-insert k k true m, eq_refl k, unseen-insert_outside m ks k apart))
  | inr e ↦
      ground
        (arith, unseen-insert m ks k distinct.1, flag-insert k j true m, eq_iff j k, eq_iff k j)
]

-- If some name is left, here is one.
pub unseen-pos :
    (m : Map Bool) (ks : List String)
    → 0 < unseen m ks
    → (k : String) × (contains ks k ≡ true) × (flag k m ≡ false)
unfolding unseen
unseen-pos m [] h = absurd (omega arith)
unseen-pos m (k ∷ ks) h = elim (Bool-cases (flag k m)) [
  | inr new ↦ (k, ground (arith, eq_refl k), new)
  | inl old ↦
      let rest : 0 < unseen m ks = ground arith in
      let (j, there, new) = unseen-pos m ks rest in (j, ground arith, new)
]

pub unseen-zero :
    (m : Map Bool) (ks : List String) (k : String)
    → unseen m ks ≡ 0
    → contains ks k ≡ true
    → flag k m ≡ true
unfolding unseen
unseen-zero m [] k h there = cc
unseen-zero m (j ∷ ks) k h there = ground (arith, unseen-zero m ks k, eq_iff j k)

-- The order in which the n-th `for k := range m` of a call visits the keys. Go leaves it open.
abbrev pub RangeOrder : Type 0
RangeOrder = ℕ → List String → List String

-- A range statement visits each key of the map once.
abbrev pub VisitsAll : RangeOrder → Type 0
VisitsAll range = (n : ℕ) (ks : List String) → Perm (range n ks) ks
