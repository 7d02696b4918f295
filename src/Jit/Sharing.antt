-- ===== src/Jit/Sharing.antt =====
-- internal/rbac/jit.go: writes through a pointer to a request.
use platformfoundry_ce.Base.{
  String, ◌≡◌, refl, sym, ap, ◌∙◌, inl, inr, false, some, [], ◌∷◌, arith, ◌==◌, eq_iff, eq_refl,
  Bool-cases, Option-cases, map_option,
}
use platformfoundry_ce.Base.Maps.{Map, lookup, insert, lookup-insert}
use platformfoundry_ce.Jit.Manager.{
  Address, Request, Manager, seen_after, share, write_request, store_request,
}
use platformfoundry_ce.Jit.Sound.{IsSound, Placed, Unbacking, same_lookups-IsSound, write-IsSound}

lookup-share :
    (k : String) (r : Request) (m : Map Request)
    → lookup k (share r m) ≡ map_option (seen_after r) (lookup k m)
unfolding lookup share
lookup-share k r [] = refl
lookup-share k r ((j, q) ∷ m) = elim (Bool-cases (j == k)) [
  | inl same ↦ rw (same, lookup, share) refl
  | inr apart ↦ rw (apart, lookup, share) (lookup-share k r m)
]

seen_after_same : (r q : Request) → q.object ≡ r.object → seen_after r q ≡ r
unfolding seen_after
seen_after_same r q e = rw (e, eq_refl r.object, seen_after) refl

seen_after_other : (r q : Request) → (q.object == r.object) ≡ false → seen_after r q ≡ q
unfolding seen_after
seen_after_other r q e = rw (e, seen_after) refl

-- No entry has the struct at this address.
abbrev pub Unheld : Manager → Address → Type 0
Unheld m object =
    (k : String) (q : Request) → lookup k m.requests ≡ some q → (q.object == object) ≡ false

-- A write to a struct that no entry has changes nothing.
lookup-share_apart :
    (k : String) (r : Request) (m : Manager)
    → Unheld m r.object
    → lookup k (share r m.requests) ≡ lookup k m.requests
lookup-share_apart k r m free =
    lookup-share k r m.requests ∙ (elim (Option-cases (lookup k m.requests)) [
      | inl e ↦ rw e refl
      | inr (q, e) ↦ rw e (ap some (seen_after_other r q (free k q e)))
    ])

keys_apart :
    (id k : String) (r q p : Request) (m : Manager)
    → lookup id m.requests ≡ some q
    → q.object ≡ r.object
    → lookup k m.requests ≡ some p
    → (p.object == r.object) ≡ false
    → (id == k) ≡ false
keys_apart id k r q p m found same e apart = elim (Bool-cases (id == k)) [
  | inr other ↦ other
  | inl at ↦
      let one : some q ≡ some p =
        sym found ∙ ap (λ x. lookup x m.requests) ((eq_iff id k).0 at) ∙ e in
      let objects : some q.object ≡ some p.object = ap (map_option (λ x. x.object)) one in
      absurd (ground (arith, eq_iff p.object r.object))
]

-- A write to the struct of one entry is a write of this entry.
lookup-share_one :
    (id k : String) (r q : Request) (m : Manager)
    → lookup id m.requests ≡ some q
    → q.object ≡ r.object
    → Placed m r.object id
    → lookup k (share r m.requests) ≡ lookup k (insert id r m.requests)
lookup-share_one id k r q m found same placed =
    lookup-share k r m.requests ∙ (elim (Option-cases (lookup k m.requests)) [
      | inl e ↦ rw e (ground (arith, lookup-insert id k r m.requests, eq_iff id k))
      | inr (p, e) ↦ (elim (Bool-cases (p.object == r.object)) [
        | inl one ↦
            let held = (eq_iff p.object r.object).0 one in
            let at = placed k p e held in
            rw e (
              ap some (seen_after_same r p held)
              ∙ ground (arith, lookup-insert id k r m.requests, eq_iff id k))
        | inr apart ↦
            let other = keys_apart id k r q p m found same e apart in
            rw e (
              ap some (seen_after_other r p apart)
              ∙ ground (arith, lookup-insert id k r m.requests, other))
      ])
    ])

pub lookup-written :
    (id : String) (r q : Request) (m : Manager)
    → lookup id m.requests ≡ some q
    → q.object ≡ r.object
    → lookup id (write_request r m).requests ≡ some r
unfolding write_request
lookup-written id r q m found same =
    lookup-share id r m.requests ∙ rw found (ap some (seen_after_same r q same))

-- A request that no grant has may be written through the pointer of its entry.
pub write_request-IsSound :
    (id : String) (r q : Request) (m : Manager)
    → lookup id m.requests ≡ some q
    → q.object ≡ r.object
    → r.id ≡ id
    → Unbacking m id
    → IsSound m
    → IsSound (write_request r m)
unfolding write_request
write_request-IsSound id r q m found same named free s =
    let placed : Placed m r.object id =
      λ k p there one. s.separate k id p q there found (one ∙ sym same) in
    same_lookups-IsSound (record m { requests = insert id r m.requests })
      (record m { requests = share r m.requests })
      (λ k. lookup-share_one id k r q m found same placed) refl
      (write-IsSound id r m named placed free s)

-- A struct that no entry has may be written.
pub other_struct-IsSound :
    (r : Request) (m : Manager) → Unheld m r.object → IsSound m → IsSound (write_request r m)
unfolding write_request
other_struct-IsSound r m free s =
    same_lookups-IsSound m (record m { requests = share r m.requests })
      (λ k. lookup-share_apart k r m free) refl s

-- A request in a struct of its own may be stored where no grant has its ID.
pub store_request-IsSound :
    (id : String) (r : Request) (m : Manager)
    → r.id ≡ id
    → Unheld m r.object
    → Unbacking m id
    → IsSound m
    → IsSound (store_request id r m)
unfolding store_request write_request
store_request-IsSound id r m named free unbacking s =
    write-IsSound id r (record m { requests = share r m.requests }) named
      (λ k p there one.
        let before : lookup k m.requests ≡ some p = sym (lookup-share_apart k r m free) ∙ there in
        absurd (ground (arith, free k p before, eq_iff p.object r.object)))
      unbacking (other_struct-IsSound r m free s)
