-- ===== src/Memory/Usage.antt =====
-- How many bytes of memory a scope and key hold, through sorting, replacement and the map.
use aimebu.Prelude.{
  length, select, Map, lookup, insert, delete, NoKey, select-NoKey, insert-NoKey, delete-NoKey,
  Text, same_iff, text_eq, if◌then◌else◌, ◌==◌, Bool-cases, nat_eq, ℕ, ◌+◌, ◌≤◌, ◌≡◌, refl, subst,
  inl, inr, Bool, Option, none, some, List, [], ◌∷◌, ◌++◌, arith,
}
use aimebu.Types.{MemoryRecord}
use aimebu.Memory.{in_scope, used_bytes, insert_record, sort_memory_records, values}

-- Every key stands once, and a record's ID is its key.
abbrev pub Keyed : Map Text MemoryRecord → Type 0
Keyed [] = Unit {0}
Keyed ((j, r) ∷ rest) = (r.id ≡ j) × NoKey j rest × Keyed rest

pub select-Keyed :
    (p : Text × MemoryRecord → Bool) (m : Map Text MemoryRecord) → Keyed m → Keyed (select p m)
select-Keyed p [] h = tt
select-Keyed p ((j, r) ∷ rest) h =
    ground (arith, select-Keyed p rest h.2, select-NoKey p j rest h.1)

pub insert-Keyed :
    (id : Text) (r : MemoryRecord) (m : Map Text MemoryRecord)
    → r.id ≡ id
    → Keyed m
    → Keyed (insert id r m)
unfolding insert
insert-Keyed id r [] e h = (e, tt, tt)
insert-Keyed id r ((j, x) ∷ rest) e h = elim (Bool-cases (j == id)) [
  | inl hit ↦ rw hit (e, subst (λ k. NoKey k rest) ((same_iff j id).0 hit) h.1, h.2)
  | inr miss ↦ rw miss (
    h.0,
    insert-NoKey j id r rest (ground (arith, same_iff j id, same_iff id j)) h.1,
    insert-Keyed id r rest e h.2,
  )
]

pub delete-Keyed : (id : Text) (m : Map Text MemoryRecord) → Keyed m → Keyed (delete id m)
unfolding delete
delete-Keyed id [] h = tt
delete-Keyed id ((j, x) ∷ rest) h =
    ground (arith, delete-Keyed id rest h.2, delete-NoKey j id rest h.1)

module _ (scope key : Text) where
  -- What one record counts.
  abbrev pub weight : MemoryRecord → ℕ
  unfolding in_scope
  weight r = if in_scope scope key r then length r.body else 0

  abbrev pub held : Option MemoryRecord → ℕ
  unfolding in_scope
  held none = 0
  held (some r) = weight r

  used_bytes-insert_record :
      (r : MemoryRecord) (xs : List MemoryRecord)
      → used_bytes scope key (insert_record r xs) ≡ weight r + used_bytes scope key xs
  unfolding used_bytes insert_record
  used_bytes-insert_record r [] = ground arith
  used_bytes-insert_record r (x ∷ xs) = ground (arith, used_bytes-insert_record r xs)

  pub used_bytes-sort :
      (xs : List MemoryRecord)
      → used_bytes scope key (sort_memory_records xs) ≡ used_bytes scope key xs
  unfolding used_bytes sort_memory_records
  used_bytes-sort [] = refl
  used_bytes-sort (x ∷ xs) =
      ground (arith, used_bytes-insert_record x (sort_memory_records xs), used_bytes-sort xs)

  pub used_bytes-select_scope :
      (xs : List MemoryRecord)
      → used_bytes scope key (select (in_scope scope key) xs) ≡ used_bytes scope key xs
  unfolding used_bytes in_scope
  used_bytes-select_scope [] = refl
  used_bytes-select_scope (x ∷ xs) = ground (arith, used_bytes-select_scope xs)

  pub used_bytes-append :
      (xs ys : List MemoryRecord)
      → used_bytes scope key (xs ++ ys) ≡ used_bytes scope key xs + used_bytes scope key ys
  unfolding used_bytes
  used_bytes-append [] ys = omega arith
  used_bytes-append (x ∷ xs) ys = ground (arith, used_bytes-append xs ys)

  -- A record that is put counts, the one that it replaces no longer does.
  pub used_bytes-insert :
      (id : Text) (r : MemoryRecord) (m : Map Text MemoryRecord)
      → used_bytes scope key (values (insert id r m)) + held (lookup id m)
        ≡ weight r + used_bytes scope key (values m)
  unfolding used_bytes insert lookup
  used_bytes-insert id r [] = ground arith
  used_bytes-insert id r ((j, x) ∷ rest) = ground (arith, used_bytes-insert id r rest)

  pub used_bytes-delete :
      (id : Text) (m : Map Text MemoryRecord)
      → used_bytes scope key (values (delete id m)) ≤ used_bytes scope key (values m)
  unfolding used_bytes delete
  used_bytes-delete id [] = omega arith
  used_bytes-delete id ((j, x) ∷ rest) = ground (arith, used_bytes-delete id rest)

  pub used_bytes-select :
      (p : Text × MemoryRecord → Bool) (m : Map Text MemoryRecord)
      → used_bytes scope key (values (select p m)) ≤ used_bytes scope key (values m)
  unfolding used_bytes
  used_bytes-select p [] = omega arith
  used_bytes-select p ((j, x) ∷ rest) = ground (arith, used_bytes-select p rest)
