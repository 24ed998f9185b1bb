-- ===== src/Memory/Snapshot/Trimmed.antt =====
-- The bounds of a snapshot that is trimmed.
use aimebu.Prelude.{
  take, length, length-append, select, length-reverse, Text, text_eq, trim_left, trim_space, leb,
  if◌then◌else◌, Bool-cases, nat_eq, ℕ, zero, suc, ◌+◌, ◌-◌, ◌≤◌, max, ◌≡◌, refl, ap, subst, inl,
  inr, Bool, true, false, not, none, some, List, [], ◌∷◌, reverse, arith,
}
use aimebu.Types.{Agent, MemoryRecord, Store}
use aimebu.Memory.{memory_globally_enabled, ScopeRef, values, sort_memory_records}
use aimebu.Memory.Snapshot.{
  MemorySnapshot, render_memory, is_allowed, memory_snapshot, refs_of, valid_string,
  truncated_suffix, truncate_memory_string_bytes, trim_memory_snapshot, should_trim,
  memory_snapshot_for_agent, trim_records, cut_valid,
}

length-take-le : (n : ℕ) (s : Text) → length (take n s) ≤ n
length-take-le zero s = omega arith
length-take-le (suc n) [] = omega arith
length-take-le (suc n) (c ∷ s) = omega (arith, length-take-le n s)

length-trim_left : (s : Text) → length (trim_left s) ≤ length s
unfolding trim_left
length-trim_left [] = omega arith
length-trim_left (c ∷ s) = ground (arith, length-trim_left s)

length-trim_space : (s : Text) → length (trim_space s) ≤ length s
unfolding trim_space
length-trim_space s =
    let t = trim_left s in
    omega (
      arith,
      length-reverse (trim_left (reverse t)),
      length-trim_left (reverse t),
      length-reverse t,
      length-trim_left s,
    )

length-cut_valid : (limit : ℕ) (s : Text) → length (cut_valid limit s) ≤ limit
unfolding cut_valid
length-cut_valid zero s = omega arith
length-cut_valid (suc limit) s = elim (Bool-cases (valid_string (take (suc limit) s))) [
  | inl valid ↦ rw valid (length-take-le (suc limit) s)
  | inr broken ↦ rw broken (omega (arith, length-cut_valid limit s))
]

length-truncate : (s : Text) (max : ℕ) → length (truncate_memory_string_bytes s max).0 ≤ max
unfolding truncate_memory_string_bytes
length-truncate s max =
    let short = cut_valid (max - length truncated_suffix) s in
    ground (
      arith,
      length-take-le max truncated_suffix,
      length-append (trim_space short) truncated_suffix,
      length-trim_space short,
      length-cut_valid (max - length truncated_suffix) s,
    )

abbrev pub body_total : List MemoryRecord → ℕ
body_total [] = 0
body_total (r ∷ rs) = length r.body + body_total rs

body_total-trim_records :
    (left : ℕ) (rs : List MemoryRecord) → body_total (trim_records left rs) ≤ left
unfolding trim_records
body_total-trim_records left [] = omega arith
body_total-trim_records left (r ∷ rs) =
    let cut = truncate_memory_string_bytes r.body left in
    ground (arith, length-truncate r.body left, body_total-trim_records (left - length cut.0) rs)

empty_of_length : (rs : List MemoryRecord) → leb (length rs) 0 ≡ true → rs ≡ []
empty_of_length [] h = refl
empty_of_length (r ∷ rs) h = absurd (ground arith)

rendered_nothing : length (render_memory []) ≡ 0
unfolding render_memory
rendered_nothing = refl

nothing_shown :
    (refs : List ScopeRef) (s : Store)
    → leb (length (memory_snapshot refs s).records) 0 ≡ true
    → let t = memory_snapshot refs s in (body_total t.records ≤ 2048) × (length t.rendered ≤ 2048)
unfolding memory_snapshot
nothing_shown refs s h =
    let shown = sort_memory_records (select (is_allowed refs) (values s.memory)) in
    let empty : shown ≡ [] = empty_of_length shown h in
    (rw empty (omega arith), rw (ap render_memory empty) (rw rendered_nothing (omega arith)))

trimmed_fits :
    (refs : List ScopeRef) (s : Store)
    → let t = trim_memory_snapshot (memory_snapshot refs s) in
      (body_total t.records ≤ 2048) × (length t.rendered ≤ 2048)
unfolding trim_memory_snapshot
trimmed_fits refs s =
    let given = memory_snapshot refs s in
    let records = trim_records 2048 given.records in
    elim (Bool-cases (leb (length given.records) 0)) [
      | inl none_given ↦ rw none_given (nothing_shown refs s none_given)
      | inr some_given ↦
          rw some_given (
            body_total-trim_records 2048 given.records,
            length-truncate (render_memory records) 2048,
          )
    ]

shown_trimmed :
    (on slow : Bool) (x y snap : MemorySnapshot)
    → slow ≡ true
    → (if not on then none else some (if slow then x else y)) ≡ some snap
    → x ≡ snap
shown_trimmed true true x y snap e h = ground arith
shown_trimmed true false x y snap e h = absurd (ground arith)
shown_trimmed false slow x y snap e h = absurd (ground arith)

-- What an agent on a slow harness is shown takes at most 2048 bytes of bodies, and at most 2048
-- bytes as it is rendered, however much is stored.
pub memory_snapshot_for_agent-fits :
    (a : Agent) (s : Store) (snap : MemorySnapshot)
    → should_trim a ≡ true
    → memory_snapshot_for_agent a s ≡ some snap
    → (body_total snap.records ≤ 2048) × (length snap.rendered ≤ 2048)
unfolding memory_snapshot_for_agent
memory_snapshot_for_agent-fits a s snap slow h =
    let given = memory_snapshot (refs_of a s) s in
    let trimmed : trim_memory_snapshot given ≡ snap =
      shown_trimmed (memory_globally_enabled s) (should_trim a) (trim_memory_snapshot given) given
        snap slow h in
    subst (λ (q : MemorySnapshot). (body_total q.records ≤ 2048) × (length q.rendered ≤ 2048))
      trimmed (trimmed_fits (refs_of a s) s)
