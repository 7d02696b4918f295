-- ===== src/Jit/Sound.antt =====
-- internal/rbac/jit.go: every active grant is backed by an approved request.
use platformfoundry_ce.Base.{
  String, ◌≡◌, sym, ap, subst, ◌∙◌, ◌⊎◌, inl, inr, true, false, some, arith, ◌==◌, eq_iff,
  Bool-cases,
}
use platformfoundry_ce.Base.Maps.{Map, lookup, insert, delete, lookup-insert, lookup-delete}
use platformfoundry_ce.Jit.Manager.{Address, approved, Request, Grant, Manager}

-- The request entitles its requester to the grant.
pub record Backs (r : Request) (g : Grant) : Type 0 where
  pub status : r.status ≡ approved
  pub user : g.user ≡ r.requester
  pub resource : g.resource ≡ r.resource
  pub role : g.role ≡ r.role
  pub approver : g.approved_by ≡ r.approved_by

-- Requests and grants stand under their IDs, no two entries share one struct, each grant is active
-- and has a request that backs it, and no two grants have one request.
pub record IsSound (m : Manager) : Type 0 where
  pub named : (k : String) (r : Request) → lookup k m.requests ≡ some r → r.id ≡ k
  pub separate :
      (k k' : String) (r r' : Request)
      → lookup k m.requests ≡ some r
      → lookup k' m.requests ≡ some r'
      → r.object ≡ r'.object
      → k ≡ k'
  pub active :
      (k : String) (g : Grant)
      → lookup k m.active_grants ≡ some g
      → (g.id ≡ k) × (g.is_active ≡ true)
  pub backed :
      (k : String) (g : Grant)
      → lookup k m.active_grants ≡ some g
      → (r : Request) × (lookup g.request_id m.requests ≡ some r) × Backs r g
  pub single :
      (k k' : String) (g g' : Grant)
      → lookup k m.active_grants ≡ some g
      → lookup k' m.active_grants ≡ some g'
      → g.request_id ≡ g'.request_id
      → k ≡ k'

-- No active grant has this request.
abbrev pub Unbacking : Manager → String → Type 0
Unbacking m id =
    (k : String) (g : Grant) → lookup k m.active_grants ≡ some g → (g.request_id == id) ≡ false

-- Two managers that find the same requests, and have the same grants.
pub same_lookups-IsSound :
    (m m' : Manager)
    → ((k : String) → lookup k m'.requests ≡ lookup k m.requests)
    → m'.active_grants ≡ m.active_grants
    → IsSound m
    → IsSound m'
same_lookups-IsSound m m' e h s = record {
  named = λ k r there. s.named k r (sym (e k) ∙ there);
  separate =
      λ k k' r r' there there'. s.separate k k' r r' (sym (e k) ∙ there) (sym (e k') ∙ there');
  active = λ k g there. s.active k g (ap (lookup k) (sym h) ∙ there);
  backed = λ k g there.
      let (r, found, backs) = s.backed k g (ap (lookup k) (sym h) ∙ there) in
      (r, e g.request_id ∙ found, backs);
  single = λ k k' g g' there there' same.
      s.single k k' g g' (ap (lookup k) (sym h) ∙ there) (ap (lookup k') (sym h) ∙ there') same;
}

pub same-IsSound :
    (m m' : Manager)
    → m'.requests ≡ m.requests
    → m'.active_grants ≡ m.active_grants
    → IsSound m
    → IsSound m'
same-IsSound m m' e h s = same_lookups-IsSound m m' (λ k. ap (lookup k) e) h s

-- What a lookup finds after a deletion was there before.
before_delete {ℓ} :
    {V : Type ℓ} (k j : String) (m : Map V) {v : V}
    → lookup j (delete k m) ≡ some v
    → (lookup j m ≡ some v) × ((k == j) ≡ false)
before_delete k j m e = (ground (arith, lookup-delete k j m), ground (arith, lookup-delete k j m))

pub drop-IsSound :
    (k : String) (m : Manager)
    → IsSound m
    → IsSound (record m { active_grants = delete k m.active_grants })
drop-IsSound k m s = record {
  named = s.named;
  separate = s.separate;
  active = λ j g there. s.active j g (before_delete k j m.active_grants there).0;
  backed = λ j g there. s.backed j g (before_delete k j m.active_grants there).0;
  single = λ j j' g g' there there' same.
      s.single j j' g g' (before_delete k j m.active_grants there).0
        (before_delete k j' m.active_grants there').0 same;
}

-- What a lookup finds after an insertion is new or was there before.
after_insert {ℓ} :
    {V : Type ℓ} (k j : String) (v : V) (m : Map V) {w : V}
    → lookup j (insert k v m) ≡ some w
    → ((k ≡ j) × (v ≡ w)) ⊎ (((k == j) ≡ false) × (lookup j m ≡ some w))
after_insert k j v m e = elim (Bool-cases (k == j)) [
  | inl same ↦ inl ((eq_iff k j).0 same, ground (arith, lookup-insert k j v m))
  | inr apart ↦ inr (apart, ground (arith, lookup-insert k j v m))
]

-- No entry but the one under this ID has the struct at this address.
abbrev pub Placed : Manager → Address → String → Type 0
Placed m object id =
    (k : String) (q : Request) → lookup k m.requests ≡ some q → q.object ≡ object → k ≡ id

-- A request that no grant has may be written.
pub write-IsSound :
    (id : String) (r : Request) (m : Manager)
    → r.id ≡ id
    → Placed m r.object id
    → Unbacking m id
    → IsSound m
    → IsSound (record m { requests = insert id r m.requests })
write-IsSound id r m e placed free s = record {
  separate = λ k k' q q' there there' same. elim (after_insert id k r m.requests there) [
    | inl (at, here) ↦ (elim (after_insert id k' r m.requests there') [
      | inl (at', here') ↦ sym at ∙ at'
      | inr (apart', before') ↦
          sym at ∙ sym (placed k' q' before' (sym same ∙ sym (ap (λ x. x.object) here)))
    ])
    | inr (apart, before) ↦ (elim (after_insert id k' r m.requests there') [
      | inl (at', here') ↦ placed k q before (same ∙ sym (ap (λ x. x.object) here')) ∙ at'
      | inr (apart', before') ↦ s.separate k k' q q' before before' same
    ])
  ];
  named = λ k q there. elim (Bool-cases (id == k)) [
    | inl same ↦ ground (arith, lookup-insert id k r m.requests, eq_iff id k)
    | inr apart ↦ s.named k q (ground (arith, lookup-insert id k r m.requests))
  ];
  active = s.active;
  backed = λ k g there.
      let (q, found, backs) = s.backed k g there in
      (
        q,
        ground (
          arith,
          lookup-insert id g.request_id r m.requests,
          free k g there,
          eq_iff id g.request_id,
          eq_iff g.request_id id,
        ),
        backs,
      );
  single = s.single;
}

-- A request that no grant has may be deleted.
pub forget-IsSound :
    (id : String) (m : Manager)
    → Unbacking m id
    → IsSound m
    → IsSound (record m { requests = delete id m.requests })
forget-IsSound id m free s = record {
  separate = λ k k' q q' there there'.
      s.separate k k' q q' (before_delete id k m.requests there).0
        (before_delete id k' m.requests there').0;
  named = λ k q there. s.named k q (before_delete id k m.requests there).0;
  active = s.active;
  backed = λ k g there.
      let (q, found, backs) = s.backed k g there in
      (
        q,
        ground (
          arith,
          lookup-delete id g.request_id m.requests,
          free k g there,
          eq_iff id g.request_id,
          eq_iff g.request_id id,
        ),
        backs,
      );
  single = s.single;
}

-- A request that is not approved has no grant.
pub not_approved-Unbacking :
    (m : Manager) (id : String)
    → IsSound m
    → ((r : Request) → lookup id m.requests ≡ some r → r.status ≡ approved → ⊥)
    → Unbacking m id
not_approved-Unbacking m id s never k g there = elim (Bool-cases (g.request_id == id)) [
  | inr apart ↦ apart
  | inl same ↦
      let (r, found, backs) = s.backed k g there in
      let here : lookup id m.requests ≡ some r =
        subst (λ x. lookup x m.requests ≡ some r) ((eq_iff g.request_id id).0 same) found in
      absurd (never r here backs.status)
]

-- Behind the end of its one grant, no grant has the request.
pub dropped-Unbacking :
    (m : Manager) (k : String) (g : Grant)
    → IsSound m
    → lookup k m.active_grants ≡ some g
    → Unbacking (record m { active_grants = delete k m.active_grants }) g.request_id
dropped-Unbacking m k g s there k' g' there' = elim (Bool-cases (g'.request_id == g.request_id)) [
  | inr apart ↦ apart
  | inl same ↦
      let (found, other) = before_delete k k' m.active_grants there' in
      let one = s.single k' k g' g found there ((eq_iff g'.request_id g.request_id).0 same) in
      ground (arith, eq_iff k k')
]

-- No active grant but the one under `k` has this request.
abbrev pub UnbackingBut : String → Manager → String → Type 0
UnbackingBut k m id =
    (j : String) (h : Grant)
    → (k == j) ≡ false
    → lookup j m.active_grants ≡ some h
    → (h.request_id == id) ≡ false

-- A grant of a request that backs it and has no other grant.
pub grant-IsSound :
    (k : String) (g : Grant) (r : Request) (m : Manager)
    → g.id ≡ k
    → g.is_active ≡ true
    → lookup g.request_id m.requests ≡ some r
    → Backs r g
    → UnbackingBut k m g.request_id
    → IsSound m
    → IsSound (record m { active_grants = insert k g m.active_grants })
grant-IsSound k g r m named active found backs free s = record {
  named = s.named;
  separate = s.separate;
  active = λ j h there. elim (after_insert k j g m.active_grants there) [
    | inl (same, here) ↦ subst (λ x. (x.id ≡ j) × (x.is_active ≡ true)) here (named ∙ same, active)
    | inr (apart, before) ↦ s.active j h before
  ];
  backed = λ j h there. elim (after_insert k j g m.active_grants there) [
    | inl (same, here) ↦
        subst (λ x. (r : Request) × (lookup x.request_id m.requests ≡ some r) × Backs r x) here
          (r, found, backs)
    | inr (apart, before) ↦ s.backed j h before
  ];
  single = λ j j' h h' there there' same. elim (after_insert k j g m.active_grants there) [
    | inl (at, here) ↦ (elim (after_insert k j' g m.active_grants there') [
      | inl (at', here') ↦ sym at ∙ at'
      | inr (apart, before) ↦ absurd (
          ground (
            arith,
            free j' h' apart before,
            eq_iff h'.request_id g.request_id,
            ap (λ x. x.request_id) here,
          ))
    ])
    | inr (apart, before) ↦ (elim (after_insert k j' g m.active_grants there') [
      | inl (at', here') ↦ absurd (
          ground (
            arith,
            free j h apart before,
            eq_iff h.request_id g.request_id,
            ap (λ x. x.request_id) here',
          ))
      | inr (apart', before') ↦ s.single j j' h h' before before' same
    ])
  ];
}
