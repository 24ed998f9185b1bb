-- ===== src/Memory/Replacing.antt =====
-- The list that an update checks against the cap: the scope's records, with one put in place of
-- the record of its ID.
use aimebu.Prelude.{
  length, select, Map, lookup, NoKey, Text, same_iff, text_eq, ◌==◌, Bool-cases, nat_eq, ◌+◌, ◌≡◌,
  refl, subst, ◌∙◌, inl, inr, Bool, true, false, ◌||◌, some, List, [], ◌∷◌, arith,
}
use aimebu.Types.{MemoryRecord}
use aimebu.Memory.{
  in_scope, used_bytes, comes_before, insert_record, sort_memory_records, values, replace_record,
}
use aimebu.Memory.Usage.{used_bytes-sort, used_bytes-select_scope, Keyed, weight}

module _ (id : Text) (r : MemoryRecord) where
  -- Nothing but `r` has the ID, and `r` is there.
  abbrev Only : List MemoryRecord → Type 0
  Only [] = Unit {0}
  Only (x ∷ xs) = (x.id == id ≡ true → x ≡ r) × Only xs

  abbrev has_id : List MemoryRecord → Bool
  has_id [] = false
  has_id (x ∷ xs) = x.id == id || has_id xs

  Only-insert_record :
      (x : MemoryRecord) (xs : List MemoryRecord)
      → (x.id == id ≡ true → x ≡ r)
      → Only xs
      → Only (insert_record x xs)
  unfolding insert_record
  Only-insert_record x [] h o = (h, tt)
  Only-insert_record x (y ∷ ys) h o = elim (Bool-cases (comes_before x y)) [
    | inl first ↦ rw first (h, o)
    | inr later ↦ rw later (o.0, Only-insert_record x ys h o.1)
  ]

  Only-sort : (xs : List MemoryRecord) → Only xs → Only (sort_memory_records xs)
  unfolding sort_memory_records
  Only-sort [] o = tt
  Only-sort (x ∷ xs) o = Only-insert_record x (sort_memory_records xs) o.0 (Only-sort xs o.1)

  Only-select : (p : MemoryRecord → Bool) (xs : List MemoryRecord) → Only xs → Only (select p xs)
  Only-select p [] o = tt
  Only-select p (x ∷ xs) o = elim (Bool-cases (p x)) [
    | inl in_ ↦ rw in_ (o.0, Only-select p xs o.1)
    | inr out ↦ rw out (Only-select p xs o.1)
  ]

  has_id-insert_record :
      (x : MemoryRecord) (xs : List MemoryRecord)
      → has_id (insert_record x xs) ≡ (x.id == id || has_id xs)
  unfolding insert_record
  has_id-insert_record x [] = refl
  has_id-insert_record x (y ∷ ys) = ground (arith, has_id-insert_record x ys)

  has_id-sort : (xs : List MemoryRecord) → has_id (sort_memory_records xs) ≡ has_id xs
  unfolding sort_memory_records
  has_id-sort [] = refl
  has_id-sort (x ∷ xs) =
      ground (arith, has_id-insert_record x (sort_memory_records xs), has_id-sort xs)

  -- A row of the map that is found is kept by a test that it passes.
  has_id-select :
      (p : MemoryRecord → Bool) (m : Map Text MemoryRecord)
      → Keyed m
      → lookup id m ≡ some r
      → p r ≡ true
      → has_id (select p (values m)) ≡ true
  unfolding lookup
  has_id-select p [] k e h = cc
  has_id-select p ((j, x) ∷ m) k e h = elim (Bool-cases (j == id)) [
    | inl hit ↦ found (ground arith) (rw k.0 hit)
    | inr miss ↦ skip (has_id-select p m k.2 (ground arith) h)
  ]
    where
      found : x ≡ r → (x.id == id) ≡ true → has_id (select p (values ((j, x) ∷ m))) ≡ true
      found same_record own = ground arith

      skip : has_id (select p (values m)) ≡ true → has_id (select p (values ((j, x) ∷ m))) ≡ true
      skip there = ground arith

  Only-NoKey : (m : Map Text MemoryRecord) → Keyed m → NoKey id m → Only (values m)
  Only-NoKey [] k n = tt
  Only-NoKey ((j, x) ∷ m) k n = ((λ own. absurd (absent own)), Only-NoKey m k.2 n.1)
    where
      absent : (x.id == id) ≡ true → ⊥
      absent own = ground (arith, k.0, n.0)

  Only-values : (m : Map Text MemoryRecord) → Keyed m → lookup id m ≡ some r → Only (values m)
  unfolding lookup
  Only-values [] k e = tt
  Only-values ((j, x) ∷ m) k e = elim (Bool-cases (j == id)) [
    | inl hit ↦ (
      (λ own. ground arith),
      Only-NoKey m k.2 (subst (λ q. NoKey q m) ((same_iff j id).0 hit) k.1),
    )
    | inr miss ↦ ((λ own. absurd (absent miss own)), Only-values m k.2 (ground arith))
  ]
    where
      absent : (j == id) ≡ false → (x.id == id) ≡ true → ⊥
      absent miss own = ground (arith, k.0)

  used_bytes-replace :
      (scope key : Text) (next : MemoryRecord) (xs : List MemoryRecord)
      → Only xs
      → has_id xs ≡ true
      → used_bytes scope key (replace_record id next xs) + weight scope key r
        ≡ used_bytes scope key xs + weight scope key next
  unfolding used_bytes replace_record in_scope
  used_bytes-replace scope key next [] o h = cc
  used_bytes-replace scope key next (x ∷ xs) o h = elim (Bool-cases (x.id == id)) [
    | inl hit ↦ at_head hit (o.0 hit)
    | inr miss ↦ ground (arith, used_bytes-replace scope key next xs o.1)
  ]
    where
      at_head :
          (x.id == id) ≡ true
          → x ≡ r
          → used_bytes scope key (replace_record id next (x ∷ xs)) + weight scope key r
            ≡ used_bytes scope key (x ∷ xs) + weight scope key next
      at_head hit own = ground arith

  -- What the scope holds after the replacement, in terms of what the map holds.
  pub used_bytes-replaced :
      (next : MemoryRecord) (m : Map Text MemoryRecord)
      → Keyed m
      → lookup id m ≡ some r
      → used_bytes r.scope r.scope_key (
            replace_record id next
              (sort_memory_records (select (in_scope r.scope r.scope_key) (values m))))
          + length r.body
        ≡ used_bytes r.scope r.scope_key (values m) + weight r.scope r.scope_key next
  unfolding in_scope
  used_bytes-replaced next m k e =
      let rows = select (in_scope r.scope r.scope_key) (values m) in
      let sum =
        used_bytes-replace r.scope r.scope_key next (sort_memory_records rows)
          (Only-sort rows (Only-select _ (values m) (Only-values m k e)))
          (has_id-sort rows ∙ has_id-select (in_scope r.scope r.scope_key) m k e own) in
      let sorted = used_bytes-sort r.scope r.scope_key rows in
      let picked = used_bytes-select_scope r.scope r.scope_key (values m) in
      ground (arith, (same_iff r.scope r.scope).1 refl, (same_iff r.scope_key r.scope_key).1 refl)
    where
      own : in_scope r.scope r.scope_key r ≡ true
      own =
          ground
            (arith, (same_iff r.scope r.scope).1 refl, (same_iff r.scope_key r.scope_key).1 refl)
