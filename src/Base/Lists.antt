-- ===== src/Base/Lists.antt =====
-- Lists of names: membership as a test, selection, and length over the native numbers.
use Prim.Native.Nat.{ℕ, suc, ◌+◌, ◌<◌}
use Prim.Native.String.{String}
use mathlib.Core.Path.{◌≡◌, refl, sym, subst}
use mathlib.Core.Logic.Or
use mathlib.Core.Logic.{◌↔◌, ◌⊎◌, ∥∥₁_elim, inl, inr}
use mathlib.Core.Bool.{Bool, true, false, ◌&&◌, ◌||◌}
use mathlib.Core.List.{
  List, [], ◌∷◌, ◌++◌, Perm, Mem, Memᴰ, Nodup, Nodup-nil, Nodup-cons, mem-cons, mem-cons_of_mem,
  perm_ext_iff_of_Nodup,
}
use mathlib.Core.List.Perm
use native.Mathlib.Omega.{arith}
use text.Mathlib.Text.{◌==◌}
use text.Mathlib.TextEquality.{eq_iff}
use text.Mathlib.TextPositions.{eq_refl}
use platformfoundry_ce.Base.Tests.{if◌then◌else◌, Bool-cases}

module _ {ℓ} {A : Type ℓ} where
  abbrev pub length : List A → ℕ
  length [] = 0
  length (x ∷ xs) = suc (length xs)

  pub length-append : (xs ys : List A) → length (xs ++ ys) ≡ length xs + length ys
  length-append [] ys = omega arith
  length-append (x ∷ xs) ys = omega (arith, length-append xs ys)

  -- A predicate by recursion computes to tuples.
  abbrev pub All {κ} : (A → Type κ) → List A → Type κ
  All P [] = Unit
  All P (x ∷ xs) = P x × All P xs

  pub All-append {κ} :
      (Holds : A → Type κ) (front back : List A)
      → All Holds front
      → All Holds back
      → All Holds (front ++ back)
  All-append Holds [] back none all = all
  All-append Holds (a ∷ front) back (here, there) all =
      (here, All-append Holds front back there all)

  pub All-map {κ μ} :
      {P : A → Type κ} {Q : A → Type μ} (xs : List A) → ((x : A) → P x → Q x) → All P xs → All Q xs
  All-map [] f h = tt
  All-map (x ∷ xs) f h = (f x h.0, All-map xs f h.1)

abbrev pub contains : List String → String → Bool
contains [] a = false
contains (x ∷ xs) a = x == a || contains xs a

infix 50 ◌∈◌
abbrev pub ◌∈◌ : String → List String → Type 0
a ∈ xs = contains xs a ≡ true

pub contains-append :
    (xs ys : List String) (a : String) → contains (xs ++ ys) a ≡ contains xs a || contains ys a
contains-append [] ys a = refl
contains-append (x ∷ xs) ys a = ground (arith, contains-append xs ys a)

pub All-at {κ} : (P : String → Type κ) (xs : List String) (a : String) → All P xs → a ∈ xs → P a
All-at P [] a h m = cc
All-at P (x ∷ xs) a h m = elim (Bool-cases (x == a)) [
  | inl e ↦ subst P ((eq_iff x a).0 e) h.0
  | inr e ↦ All-at P xs a h.1 (ground arith)
]

pub All-of {κ} : (P : String → Type κ) (xs : List String) → ((a : String) → a ∈ xs → P a) → All P xs
All-of P [] h = tt
All-of P (x ∷ xs) h = (h x (ground (arith, eq_refl x)), All-of P xs (λ a m. h a (ground arith)))

-- The library's membership is the test.
pub mem→contains : (xs : List String) {a : String} → Mem a xs → a ∈ xs
mem→contains xs m = ∥∥₁_elim m (hlevel) (go xs)
  where
    go : (xs : List String) {a : String} → Memᴰ a xs → a ∈ xs
    go [] h = elim h [ ]
    go (x ∷ xs) {a} (Memᴰ.head e) = ground (arith, eq_iff x a)
    go (x ∷ xs) (Memᴰ.tail m) = ground (arith, go xs m)

pub contains→mem : (xs : List String) (a : String) → a ∈ xs → Mem a xs
contains→mem [] a h = cc
contains→mem (x ∷ xs) a h = elim (Bool-cases (x == a)) [
  | inl e ↦ mem-cons.1 (Or.inl (sym ((eq_iff x a).0 e)))
  | inr e ↦ mem-cons_of_mem x (contains→mem xs a (ground arith))
]

pub contains-perm : (xs ys : List String) (a : String) → Perm xs ys → a ∈ xs → a ∈ ys
contains-perm xs ys a p h = mem→contains ys (Perm.subset p a (contains→mem xs a h))

-- No name stands twice.
abbrev pub Distinct : List String → Type 0
Distinct [] = Unit
Distinct (x ∷ xs) = (contains xs x ≡ false) × Distinct xs

pub Distinct→Nodup : (xs : List String) → Distinct xs → Nodup xs
Distinct→Nodup [] h = Nodup-nil
Distinct→Nodup (x ∷ xs) h = Nodup-cons.1 (λ m. cc (h.0, mem→contains xs m), Distinct→Nodup xs h.1)

pub Nodup→Distinct : (xs : List String) → Nodup xs → Distinct xs
Nodup→Distinct [] h = tt
Nodup→Distinct (x ∷ xs) h =
    let (absent, rest) = Nodup-cons.0 h in
    (
      elim (Bool-cases (contains xs x)) [
        | inl e ↦ absurd (absent (contains→mem xs x e))
        | inr e ↦ e
      ],
      Nodup→Distinct xs rest,
    )

pub Distinct-perm : (xs ys : List String) → Perm xs ys → Distinct xs → Distinct ys
Distinct-perm xs ys p h = Nodup→Distinct ys (Perm.nodup p (Distinct→Nodup xs h))

pub Distinct-append :
    (xs ys : List String)
    → Distinct xs
    → Distinct ys
    → ((a : String) → a ∈ xs → contains ys a ≡ false)
    → Distinct (xs ++ ys)
Distinct-append [] ys hx hy apart = hy
Distinct-append (x ∷ xs) ys hx hy apart = (
  ground (arith, contains-append xs ys x, apart x, eq_refl x),
  Distinct-append xs ys hx.1 hy (λ a m. apart a (ground arith)),
)

-- What stands in the middle does not stand before.
pub Distinct-middle :
    (xs : List String) (a : String) (ys : List String)
    → Distinct (xs ++ a ∷ ys)
    → contains xs a ≡ false
Distinct-middle [] a ys h = refl
Distinct-middle (x ∷ xs) a ys h =
    ground
      (arith, Distinct-middle xs a ys h.1, contains-append xs (a ∷ ys) x, eq_iff x a, eq_iff a x)

pub perm_of_same_members :
    (xs ys : List String)
    → Distinct xs
    → Distinct ys
    → ((a : String) → contains xs a ≡ contains ys a)
    → Perm xs ys
perm_of_same_members xs ys hx hy same =
    (perm_ext_iff_of_Nodup (Distinct→Nodup xs hx) (Distinct→Nodup ys hy)).1 λ a. (
      λ m. contains→mem ys a (cc (same a, mem→contains xs m)),
      λ m. contains→mem xs a (cc (same a, mem→contains ys m)),
    )

-- The entries that pass a test, in their order.
unfoldable pub select : (String → Bool) → List String → List String
select p [] = []
select p (x ∷ xs) = let rest = select p xs in if p x then x ∷ rest else rest

pub contains-select :
    (p : String → Bool) (xs : List String) (a : String)
    → contains (select p xs) a ≡ contains xs a && p a
unfolding select
contains-select p [] a = refl
contains-select p (x ∷ xs) a = elim (Bool-cases (x == a)) [
  | inl e ↦ rw ((eq_iff x a).0 e) (ground (arith, contains-select p xs a, eq_refl a))
  | inr e ↦ ground (arith, contains-select p xs a)
]

pub select-Distinct : (p : String → Bool) (xs : List String) → Distinct xs → Distinct (select p xs)
unfolding select
select-Distinct p [] h = tt
select-Distinct p (x ∷ xs) h = ground (arith, contains-select p xs x, select-Distinct p xs h.1)

pub List-cases {ℓ} :
    {A : Type ℓ} (xs : List A) → (xs ≡ []) ⊎ ((x : A) × (rest : List A) × (xs ≡ x ∷ rest))
List-cases [] = inl refl
List-cases (x ∷ xs) = inr (x, xs, refl)

-- How often a name stands in a list.
unfoldable pub count : String → List String → ℕ
count a [] = 0
count a (x ∷ xs) = if x == a then suc (count a xs) else count a xs

pub count-append : (a : String) (xs ys : List String) → count a (xs ++ ys) ≡ count a xs + count a ys
unfolding count
count-append a [] ys = omega arith
count-append a (x ∷ xs) ys = ground (arith, count-append a xs ys)

pub count-pos_iff : (a : String) (xs : List String) → (0 < count a xs) ↔ (a ∈ xs)
unfolding count
count-pos_iff a [] = (λ h. absurd (omega arith), λ h. cc)
count-pos_iff a (x ∷ xs) =
    (λ h. ground (arith, (count-pos_iff a xs).0), λ h. ground (arith, (count-pos_iff a xs).1))

-- A loop over keys, in the order in which it visits them.
unfoldable pub for_each {ℓ} : {S : Type ℓ} → (String → S → S) → List String → S → S
for_each round [] s = s
for_each round (k ∷ ks) s = for_each round ks (round k s)

pub for_each_inv {ℓ κ} :
    {S : Type ℓ} (P : S → Type κ) (round : String → S → S)
    → ((k : String) (s : S) → P s → P (round k s))
    → (ks : List String) (s : S) → P s
    → P (for_each round ks s)
unfolding for_each
for_each_inv P round keep [] s h = h
for_each_inv P round keep (k ∷ ks) s h = for_each_inv P round keep ks (round k s) (keep k s h)
