-- ===== src/Rbac/Abac/Strings.antt =====
-- internal/rbac/abac.go: the tests on strings, over their bytes.
use platformfoundry_ce.Base.{
  ℕ, zero, suc, ◌-◌, Bool, true, false, ◌&&◌, ◌||◌, List, [], ◌∷◌, if◌then◌else◌, ltb, leb, length,
}

abbrev pub Bytes : Type 0
Bytes = List ℕ

-- `s[:n]` and `s[n:]` with n at most the length.
abbrev pub take : ℕ → Bytes → Bytes
take zero s = []
take (suc n) [] = []
take (suc n) (b ∷ s) = b ∷ take n s

abbrev pub drop : ℕ → Bytes → Bytes
drop zero s = s
drop (suc n) [] = []
drop (suc n) (b ∷ s) = drop n s

abbrev pub same_bytes : Bytes → Bytes → Bool
same_bytes [] [] = true
same_bytes [] (b ∷ t) = false
same_bytes (a ∷ s) [] = false
same_bytes (a ∷ s) (b ∷ t) = leb a b && leb b a && same_bytes s t

unfoldable pub starts_with_string : Bytes → Bytes → Bool
starts_with_string s prefix =
    leb (length prefix) (length s) && same_bytes (take (length prefix) s) prefix

unfoldable pub ends_with_string : Bytes → Bytes → Bool
ends_with_string s suffix =
    leb (length suffix) (length s) && same_bytes (drop (length s - length suffix) s) suffix

-- The loop of `findSubstring` at `i`, with this many rounds left.
unfoldable pub find_from : ℕ → ℕ → Bytes → Bytes → Bool
find_from zero i s sub = false
find_from (suc left) i s sub =
    let rest = find_from left (suc i) s sub in
    if same_bytes (take (length sub) (drop i s)) sub then true else rest

-- It is called with a text longer than the part.
unfoldable pub find_substring : Bytes → Bytes → Bool
find_substring s sub = find_from (suc (length s - length sub)) 0 s sub

unfoldable pub contains_string : Bytes → Bytes → Bool
contains_string s sub =
    ltb 0 (length sub)
    && leb (length sub) (length s)
    && (same_bytes s sub
        || ltb (length sub) (length s)
          && (same_bytes (take (length sub) s) sub
              || same_bytes (drop (length s - length sub) s) sub
              || find_substring s sub))
