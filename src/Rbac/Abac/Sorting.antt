-- ===== src/Rbac/Abac/Sorting.antt =====
-- internal/rbac/abac.go: sortPoliciesByPriority, a bubble sort that puts higher priorities first.
use platformfoundry_ce.Base.{
  ℕ, zero, suc, ◌-◌, ◌≤◌, ◌≡◌, ◌↔◌, refl, inl, inr, List, [], ◌∷◌, if◌then◌else◌, arith, ltb,
  length, Bool-cases, All, Perm,
}
use mathlib.Core.List.Perm

module _ {ℓ} {A : Type ℓ} (priority : A → ℕ) where
  -- The inner loop: this many comparisons of neighbours, from the front.
  unfoldable pub bubble : ℕ → List A → List A
  bubble zero xs = xs
  bubble (suc n) [] = []
  bubble (suc n) (x ∷ []) = x ∷ []
  bubble (suc n) (x ∷ y ∷ rest) =
      (if ltb (priority x) (priority y) then y else x)
      ∷ bubble n ((if ltb (priority x) (priority y) then x else y) ∷ rest)

  -- The outer loop: its rounds make one comparison less each, down to one.
  unfoldable pub bubble_rounds : ℕ → List A → List A
  bubble_rounds zero xs = xs
  bubble_rounds (suc n) xs = bubble_rounds n (bubble (suc n) xs)

  unfoldable pub sort_by_priority : List A → List A
  sort_by_priority xs = bubble_rounds (length xs - 1) xs

  abbrev pub AtMost : ℕ → List A → Type 0
  AtMost bound xs = All (λ x. priority x ≤ bound) xs

  -- From the highest priority to the lowest.
  abbrev pub IsSorted : List A → Type 0
  IsSorted [] = Unit
  IsSorted (x ∷ xs) = AtMost (priority x) xs × IsSorted xs

  abbrev behind : ℕ → List A → List A
  behind zero xs = xs
  behind (suc n) [] = []
  behind (suc n) (x ∷ xs) = behind n xs

  -- Behind the first `n` the list is sorted, and none of these is lower than any behind them.
  abbrev SortedBehind : ℕ → List A → Type 0
  SortedBehind zero xs = IsSorted xs
  SortedBehind (suc n) [] = Unit
  SortedBehind (suc n) (x ∷ xs) = AtMost (priority x) (behind n xs) × SortedBehind n xs

  AtMost-nil : (n bound : ℕ) → AtMost bound (behind n [])
  AtMost-nil zero bound = tt
  AtMost-nil (suc n) bound = tt

  SortedBehind-nil : (n : ℕ) → SortedBehind n []
  SortedBehind-nil zero = tt
  SortedBehind-nil (suc n) = tt

  bubble-AtMost :
      (n bound : ℕ) (x : A) (rest : List A)
      → priority x ≤ bound
      → AtMost bound (behind n rest)
      → AtMost bound (behind n (bubble n (x ∷ rest)))
  unfolding bubble
  bubble-AtMost zero bound x rest h k = (h, k)
  bubble-AtMost (suc n) bound x [] h k = AtMost-nil n bound
  bubble-AtMost (suc n) bound x (y ∷ rest) h k = elim (Bool-cases (ltb (priority x) (priority y))) [
    | inl e ↦ rw e (bubble-AtMost n bound x rest h k)
    | inr e ↦ rw e (bubble-AtMost n bound y rest (ground arith) k)
  ]

  bubble-SortedBehind :
      (n : ℕ) (xs : List A) → SortedBehind (suc n) xs → SortedBehind n (bubble n xs)
  unfolding bubble
  bubble-SortedBehind zero [] h = tt
  bubble-SortedBehind zero (x ∷ xs) h = h
  bubble-SortedBehind (suc n) [] h = tt
  bubble-SortedBehind (suc n) (x ∷ []) h = (AtMost-nil n (priority x), SortedBehind-nil n)
  bubble-SortedBehind (suc n) (x ∷ y ∷ rest) (hx, (hy, h)) =
      elim (Bool-cases (ltb (priority x) (priority y))) [
        | inl e ↦ rw e (
          bubble-AtMost n (priority y) x rest (ground arith) hy,
          bubble-SortedBehind n (x ∷ rest) (hx, h),
        )
        | inr e ↦ rw e (
          bubble-AtMost n (priority x) y rest (ground arith) hx,
          bubble-SortedBehind n (y ∷ rest) (hy, h),
        )
      ]

  bubble_rounds-IsSorted :
      (n : ℕ) (xs : List A) → SortedBehind (suc n) xs → IsSorted (bubble_rounds n xs)
  unfolding bubble_rounds
  bubble_rounds-IsSorted zero [] h = tt
  bubble_rounds-IsSorted zero (x ∷ xs) h = h
  bubble_rounds-IsSorted (suc n) xs h =
      bubble_rounds-IsSorted n (bubble (suc n) xs) (bubble-SortedBehind (suc n) xs h)

  behind-length : (n : ℕ) (xs : List A) → length xs ≤ n → behind n xs ≡ []
  behind-length zero [] h = refl
  behind-length zero (x ∷ xs) h = absurd (omega arith)
  behind-length (suc n) [] h = refl
  behind-length (suc n) (x ∷ xs) h = behind-length n xs (omega arith)

  SortedBehind-length : (n : ℕ) (xs : List A) → length xs ≤ n → SortedBehind n xs
  SortedBehind-length zero [] h = tt
  SortedBehind-length zero (x ∷ xs) h = absurd (omega arith)
  SortedBehind-length (suc n) [] h = tt
  SortedBehind-length (suc n) (x ∷ xs) h =
      (rw (behind-length n xs (omega arith)) tt, SortedBehind-length n xs (omega arith))

  bubble-Perm : (n : ℕ) (xs : List A) → Perm (bubble n xs) xs
  unfolding bubble
  bubble-Perm zero xs = Perm.refl xs
  bubble-Perm (suc n) [] = Perm.refl []
  bubble-Perm (suc n) (x ∷ []) = Perm.refl (x ∷ [])
  bubble-Perm (suc n) (x ∷ y ∷ rest) = elim (Bool-cases (ltb (priority x) (priority y))) [
    | inl e ↦ rw e (Perm.trans (Perm.cons y (bubble-Perm n (x ∷ rest))) (Perm.swap x y rest))
    | inr e ↦ rw e (Perm.cons x (bubble-Perm n (y ∷ rest)))
  ]

  bubble_rounds-Perm : (n : ℕ) (xs : List A) → Perm (bubble_rounds n xs) xs
  unfolding bubble_rounds
  bubble_rounds-Perm zero xs = Perm.refl xs
  bubble_rounds-Perm (suc n) xs =
      Perm.trans (bubble_rounds-Perm n (bubble (suc n) xs)) (bubble-Perm (suc n) xs)

  bubble-All {κ} : (P : A → Type κ) (n : ℕ) (xs : List A) → All P xs ↔ All P (bubble n xs)
  unfolding bubble
  bubble-All P zero xs = (λ h. h, λ h. h)
  bubble-All P (suc n) [] = (λ h. h, λ h. h)
  bubble-All P (suc n) (x ∷ []) = (λ h. h, λ h. h)
  bubble-All P (suc n) (x ∷ y ∷ rest) = elim (Bool-cases (ltb (priority x) (priority y))) [
    | inl e ↦
        let below = bubble-All P n (x ∷ rest) in
        rw e (
          λ h. (h.1.0, below.0 (h.0, h.1.1)),
          λ h. let back = below.1 h.1 in (back.0, (h.0, back.1)),
        )
    | inr e ↦
        let below = bubble-All P n (y ∷ rest) in
        rw e (λ h. (h.0, below.0 h.1), λ h. (h.0, below.1 h.1))
  ]

  bubble_rounds-All {κ} :
      (P : A → Type κ) (n : ℕ) (xs : List A) → All P xs ↔ All P (bubble_rounds n xs)
  unfolding bubble_rounds
  bubble_rounds-All P zero xs = (λ h. h, λ h. h)
  bubble_rounds-All P (suc n) xs =
      let first = bubble-All P (suc n) xs in
      let rest = bubble_rounds-All P n (bubble (suc n) xs) in
      (λ h. rest.0 (first.0 h), λ h. first.1 (rest.1 h))

  pub sort_by_priority-All {κ} :
      (P : A → Type κ) (xs : List A) → All P xs ↔ All P (sort_by_priority xs)
  unfolding sort_by_priority
  sort_by_priority-All P xs = bubble_rounds-All P (length xs - 1) xs

  -- The sort returns the same policies, each as often, none before one of a higher priority.
  pub sort_by_priority-IsSorted :
      (xs : List A) → IsSorted (sort_by_priority xs) × Perm (sort_by_priority xs) xs
  unfolding sort_by_priority
  sort_by_priority-IsSorted xs = (
    bubble_rounds-IsSorted (length xs - 1) xs
        (SortedBehind-length (suc (length xs - 1)) xs (omega arith)),
    bubble_rounds-Perm (length xs - 1) xs,
  )
