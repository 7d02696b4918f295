-- ===== src/Rbac/Abac/Substrings.antt =====
-- internal/rbac/abac.go: what the tests on strings decide.
use platformfoundry_ce.Base.{
  ℕ, zero, suc, ◌+◌, ◌-◌, ◌≤◌, ◌<◌, ◌≡◌, ◌↔◌, ◌⊎◌, refl, sym, ap, subst, ◌∙◌, inl, inr, Bool, true,
  false, ◌&&◌, ◌||◌, [], ◌∷◌, ◌++◌, arith, ltb, leb, length, length-append, Bool-cases,
}
use mathlib.Core.List.{append-nil}
use platformfoundry_ce.Rbac.Abac.Strings.{
  Bytes, take, drop, same_bytes, starts_with_string, ends_with_string, find_from, find_substring,
  contains_string,
}

same_bytes_iff : (s t : Bytes) → (same_bytes s t ≡ true) ↔ (s ≡ t)
same_bytes_iff [] [] = (λ h. refl, λ h. refl)
same_bytes_iff [] (b ∷ t) = (λ h. cc, λ h. cc)
same_bytes_iff (a ∷ s) [] = (λ h. cc, λ h. cc)
same_bytes_iff (a ∷ s) (b ∷ t) =
    let rest = same_bytes_iff s t in
    (
      λ h. let same : a ≡ b = ground arith in cc (same, rest.0 (ground arith)),
      λ h. ground (arith, rest.1),
    )

take-drop : (n : ℕ) (s : Bytes) → take n s ++ drop n s ≡ s
take-drop zero s = refl
take-drop (suc n) [] = refl
take-drop (suc n) (b ∷ s) = ap (λ l. b ∷ l) (take-drop n s)

take-append : (s t : Bytes) → take (length s) (s ++ t) ≡ s
take-append [] t = refl
take-append (b ∷ s) t = ap (λ l. b ∷ l) (take-append s t)

drop-append : (s t : Bytes) → drop (length s) (s ++ t) ≡ t
drop-append [] t = refl
drop-append (b ∷ s) t = drop-append s t

starts_with_string_iff :
    (s prefix : Bytes)
    → (starts_with_string s prefix ≡ true) ↔ ((rest : Bytes) × (s ≡ prefix ++ rest))
unfolding starts_with_string
starts_with_string_iff s prefix = (
  λ h.
      let same = (same_bytes_iff (take (length prefix) s) prefix).0 (ground arith) in
      (
        drop (length prefix) s,
        sym (take-drop (length prefix) s) ∙ ap (λ l. l ++ drop (length prefix) s) same,
      ),
  λ (rest, e). rw e (
      ground (
        arith,
        length-append prefix rest,
        (same_bytes_iff (take (length prefix) (prefix ++ rest)) prefix).1 (take-append prefix rest),
      )),
)

ends_with_string_iff :
    (s suffix : Bytes)
    → (ends_with_string s suffix ≡ true) ↔ ((front : Bytes) × (s ≡ front ++ suffix))
unfolding ends_with_string
ends_with_string_iff s suffix = (
  λ h.
      let n = length s - length suffix in
      let same = (same_bytes_iff (drop n s) suffix).0 (ground arith) in
      (take n s, sym (take-drop n s) ∙ ap (λ l. take n s ++ l) same),
  λ (front, e).
      let here : length (front ++ suffix) - length suffix ≡ length front =
        omega (arith, length-append front suffix) in
      rw e (
        ground (
          arith,
          length-append front suffix,
          here,
          (same_bytes_iff (drop (length (front ++ suffix) - length suffix) (front ++ suffix))
                suffix).1
              (rw here (drop-append front suffix)),
        )),
)

-- The part stands in the text at `k`.
abbrev IsAt : ℕ → Bytes → Bytes → Type 0
IsAt k s sub = take (length sub) (drop k s) ≡ sub

find_from-found :
    (left i : ℕ) (s sub : Bytes) → find_from left i s sub ≡ true → (k : ℕ) × IsAt k s sub
unfolding find_from
find_from-found zero i s sub h = cc
find_from-found (suc left) i s sub h =
    elim (Bool-cases (same_bytes (take (length sub) (drop i s)) sub)) [
      | inl e ↦ (i, (same_bytes_iff (take (length sub) (drop i s)) sub).0 e)
      | inr e ↦ find_from-found left (suc i) s sub (ground arith)
    ]

find_from-finds :
    (left i k : ℕ) (s sub : Bytes)
    → i ≤ k
    → k < i + left
    → IsAt k s sub
    → find_from left i s sub ≡ true
unfolding find_from
find_from-finds zero i k s sub from to here = absurd (omega arith)
find_from-finds (suc left) i k s sub from to here =
    elim (Bool-cases (same_bytes (take (length sub) (drop i s)) sub)) [
      | inl e ↦ rw e refl
      | inr e ↦ elim (Bool-cases (ltb i k)) [
        | inl later ↦ rw e (find_from-finds left (suc i) k s sub (ground arith) (ground arith) here)
        | inr now ↦
            let same : k ≡ i = ground arith in
            absurd (
              cc (
                e,
                (same_bytes_iff (take (length sub) (drop i s)) sub).1
                    (subst (λ j. IsAt j s sub) same here),
              ))
      ]
    ]

-- A part of a text: it stands somewhere in it.
abbrev pub IsPart : Bytes → Bytes → Type 0
IsPart s sub = (front back : Bytes) × (s ≡ front ++ (sub ++ back))

IsAt-IsPart : (k : ℕ) (s sub : Bytes) → IsAt k s sub → IsPart s sub
IsAt-IsPart k s sub here = (
  take k s,
  drop (length sub) (drop k s),
  sym (take-drop k s)
      ∙ ap (λ l. take k s ++ l)
          (sym (take-drop (length sub) (drop k s))
            ∙ ap (λ l. l ++ drop (length sub) (drop k s)) here),
)

IsPart-IsAt : (front back sub : Bytes) → IsAt (length front) (front ++ (sub ++ back)) sub
IsPart-IsAt front back sub = rw (drop-append front (sub ++ back)) (take-append sub back)

-- The cases in which `containsString` is true.
found_by :
    (same starts ends found nonempty fits longer : Bool)
    → (nonempty && fits && (same || longer && (starts || ends || found))) ≡ true
    → (same ≡ true) ⊎ (starts ≡ true) ⊎ (ends ≡ true) ⊎ (found ≡ true)
found_by true starts ends found nonempty fits longer h = inl refl
found_by false true ends found nonempty fits longer h = inr (inl refl)
found_by false false true found nonempty fits longer h = inr (inr (inl refl))
found_by false false false true nonempty fits longer h = inr (inr (inr refl))
found_by false false false false nonempty fits longer h = absurd (ground arith)

contains_string-found : (s sub : Bytes) → contains_string s sub ≡ true → IsPart s sub
unfolding contains_string find_substring
contains_string-found s sub h =
    elim (found_by (same_bytes s sub) (same_bytes (take (length sub) s) sub)
      (same_bytes (drop (length s - length sub) s) sub) (find_substring s sub) (ltb 0 (length sub))
      (leb (length sub) (length s)) (ltb (length sub) (length s)) h) [
        | inl e ↦ ([], [], (same_bytes_iff s sub).0 e ∙ sym (append-nil sub))
        | inr (inl e) ↦ IsAt-IsPart 0 s sub ((same_bytes_iff (take (length sub) s) sub).0 e)
        | inr (inr (inl e)) ↦
            let n = length s - length sub in
            let same = (same_bytes_iff (drop n s) sub).0 e in
            (
              take n s,
              [],
              sym (take-drop n s) ∙ ap (λ l. take n s ++ l) (same ∙ sym (append-nil sub)),
            )
        | inr (inr (inr e)) ↦
            let (k, here) = find_from-found (suc (length s - length sub)) 0 s sub e in
            IsAt-IsPart k s sub here
      ]

length-zero : (s : Bytes) → length s ≡ 0 → s ≡ []
length-zero [] h = refl
length-zero (b ∷ s) h = absurd (omega arith)

length-part :
    (front back sub : Bytes)
    → length (front ++ (sub ++ back)) ≡ length front + (length sub + length back)
length-part front back sub =
    omega (arith, length-append front (sub ++ back), length-append sub back)

whole_part :
    (front back sub : Bytes)
    → length (front ++ (sub ++ back)) ≤ length sub
    → front ++ (sub ++ back) ≡ sub
whole_part front back sub h =
    let f = length-zero front (omega (arith, length-part front back sub)) in
    let b = length-zero back (omega (arith, length-part front back sub)) in
    rw (f, b) (append-nil sub)

contains_string-finds :
    (front back sub : Bytes) → 0 < length sub → contains_string (front ++ (sub ++ back)) sub ≡ true
unfolding contains_string find_substring
contains_string-finds front back sub h =
    elim (Bool-cases (ltb (length sub) (length (front ++ (sub ++ back))))) [
      | inl longer ↦ ground (
        arith,
        find_from-finds (suc (length (front ++ (sub ++ back)) - length sub)) 0 (length front)
            (front ++ (sub ++ back)) sub (omega arith) (omega (arith, length-part front back sub))
            (IsPart-IsAt front back sub),
        length-part front back sub,
      )
      | inr short ↦
          let fits : length (front ++ (sub ++ back)) ≤ length sub = ground arith in
          ground (
            arith,
            (same_bytes_iff (front ++ (sub ++ back)) sub).1 (whole_part front back sub fits),
            length-part front back sub,
          )
    ]

nonempty-length : (s sub : Bytes) → contains_string s sub ≡ true → 0 < length sub
unfolding contains_string
nonempty-length s sub h = ground arith

-- The tests on strings: startsWithString is true exactly if the text is the prefix and something
-- behind it, endsWithString exactly if it is something and the suffix, and containsString exactly
-- if the part is not empty and stands somewhere in the text.
pub string_tests_iff :
    (s t : Bytes)
    → ((starts_with_string s t ≡ true) ↔ ((rest : Bytes) × (s ≡ t ++ rest)))
      × ((ends_with_string s t ≡ true) ↔ ((front : Bytes) × (s ≡ front ++ t)))
      × ((contains_string s t ≡ true) ↔ ((0 < length t) × IsPart s t))
string_tests_iff s t = (
  starts_with_string_iff s t,
  ends_with_string_iff s t,
  (
    λ h. (nonempty-length s t h, contains_string-found s t h),
    λ (nonempty, (front, back, e)). rw e (contains_string-finds front back t nonempty),
  ),
)
