-- ===== src/Agents/Waits/Counts.antt =====
-- The counters of open waits: what each call does to them, and what stays of no interest.
use aimebu.Prelude.{
  Map, or_zero, lookup, insert, lookup-insert, lookup-delete, insert_inv, delete_inv, Text,
  same_iff, text_eq, ltb, if◌then◌else◌, ◌==◌, nat_eq, Bool-cases, Option-cases, ℕ, ◌+◌, ◌-◌, ◌<◌,
  ◌≡◌, refl, subst, ◌≢◌, inl, inr, true, false, not, ◌&&◌, some, List, [], ◌∷◌, arith,
}
use aimebu.Types.{Store}
use aimebu.Agents.Waits.{scopes_left, leave_wait, drop_wait, scopes_of, is_filled, enter_wait}

-- How often the agent waits in a scope.
abbrev pub wait_count : Text → Text → Store → ℕ
wait_count agent room s = or_zero (lookup room (scopes_of agent s)) 0

-- No counter is stored at 0, and no agent with no wait.
pub record GoodScopes (scopes : Map Text ℕ) : Type 0 where
  pub filled : is_filled scopes ≡ true
  pub positive : (room : Text) (n : ℕ) → lookup room scopes ≡ some n → 0 < n

abbrev pub WaitsGood : Map Text (Map Text ℕ) → Type 0
WaitsGood waits =
    (agent : Text) (scopes : Map Text ℕ) → lookup agent waits ≡ some scopes → GoodScopes scopes

abbrev pub WaitsValid : Store → Type 0
WaitsValid s = WaitsGood s.open_waits

pub wait_count-enter_wait :
    (agent room a r : Text) (s : Store)
    → agent ≢ []
    → wait_count a r (enter_wait agent room s)
      ≡ (if agent == a && room == r then wait_count a r s + 1 else wait_count a r s)
unfolding enter_wait
wait_count-enter_wait agent room a r s h = ground (
  arith,
  same_iff agent [],
  same_iff agent a,
  same_iff room r,
  lookup-insert agent a (insert room (wait_count agent room s + 1) (scopes_of agent s))
      s.open_waits,
  lookup-insert room r (wait_count agent room s + 1) (scopes_of agent s),
)

pub not_filled {ℓ} : {A : Type ℓ} (xs : List A) → is_filled xs ≡ false → xs ≡ []
not_filled [] h = refl
not_filled (x ∷ xs) h = absurd (ground arith)

scopes_of-drop_wait :
    (agent room a : Text) (s : Store)
    → scopes_of a (drop_wait agent room s)
      ≡ (if agent == a then scopes_left room (scopes_of agent s) else scopes_of a s)
unfolding drop_wait
scopes_of-drop_wait agent room a s =
    let left = scopes_left room (scopes_of agent s) in
    elim (Bool-cases (is_filled left)) [
      | inl more ↦ rw more (ground (arith, lookup-insert agent a left s.open_waits))
      | inr last ↦
          rw last (ground (arith, lookup-delete agent a s.open_waits, not_filled left last))
    ]

lookup-scopes_left :
    (room r : Text) (scopes : Map Text ℕ)
    → or_zero (lookup r (scopes_left room scopes)) 0
      ≡ (if room == r then or_zero (lookup r scopes) 0 - 1 else or_zero (lookup r scopes) 0)
lookup-scopes_left room r scopes = ground (
  arith,
  same_iff room r,
  lookup-insert room r (or_zero (lookup room scopes) 0 - 1) scopes,
  lookup-delete room r scopes,
)

leave_wait-open_waits :
    (agent room : Text) (s : Store)
    → (leave_wait agent room s).open_waits ≡ (
        if agent == []
        then s.open_waits
        else if ltb 0 (wait_count agent room s)
        then (drop_wait agent room s).open_waits
        else s.open_waits)
unfolding leave_wait
leave_wait-open_waits agent room s = ground arith

pub wait_count-leave_wait :
    (agent room a r : Text) (s : Store)
    → agent ≢ []
    → wait_count a r (leave_wait agent room s)
      ≡ (if agent == a && room == r then wait_count a r s - 1 else wait_count a r s)
wait_count-leave_wait agent room a r s h = elim (Bool-cases (ltb 0 (wait_count agent room s))) [
  | inl some_wait ↦ ground (
    arith,
    same_iff agent [],
    leave_wait-open_waits agent room s,
    scopes_of-drop_wait agent room a s,
    lookup-scopes_left room r (scopes_of agent s),
    same_iff agent a,
  )
  | inr no_wait ↦ ground (
    arith,
    same_iff agent [],
    same_iff agent a,
    same_iff room r,
    leave_wait-open_waits agent room s,
  )
]

abbrev pub Positive : Map Text ℕ → Type 0
Positive scopes = (r : Text) (k : ℕ) → lookup r scopes ≡ some k → 0 < k

insert-filled :
    (room : Text) (n : ℕ) (scopes : Map Text ℕ) → is_filled (insert room n scopes) ≡ true
unfolding insert
insert-filled room n [] = refl
insert-filled room n ((r, k) ∷ rest) = ground arith

insert-Positive :
    (room : Text) (n : ℕ) (scopes : Map Text ℕ)
    → 0 < n
    → Positive scopes
    → Positive (insert room n scopes)
insert-Positive room n scopes p q r k h = ground (arith, lookup-insert room r n scopes, q r k)

scopes_left-Positive :
    (room : Text) (scopes : Map Text ℕ) → Positive scopes → Positive (scopes_left room scopes)
scopes_left-Positive room scopes q r k h = ground (
  arith,
  lookup-insert room r (or_zero (lookup room scopes) 0 - 1) scopes,
  lookup-delete room r scopes,
  q r k,
)

pub scopes_of-Positive : (agent : Text) (s : Store) → WaitsValid s → Positive (scopes_of agent s)
unfolding lookup
scopes_of-Positive agent s v r k h = elim (Option-cases (lookup agent s.open_waits)) [
  | inl e ↦ absurd (ground arith)
  | inr (scopes, e) ↦ (v agent scopes e).positive r k (ground arith)
]

put_scopes-WaitsValid :
    (agent : Text) (scopes : Map Text ℕ) (s : Store)
    → GoodScopes scopes
    → WaitsValid s
    → WaitsValid (record s { open_waits = insert agent scopes s.open_waits })
put_scopes-WaitsValid agent scopes s g v a found h =
    elim (insert_inv agent a scopes found s.open_waits h) [
      | inl here ↦ subst GoodScopes here g
      | inr old ↦ v a found old
    ]

pub WaitsGood-of_eq : {w w' : Map Text (Map Text ℕ)} → w' ≡ w → WaitsGood w → WaitsGood w'
WaitsGood-of_eq e v a scopes h = v a scopes (rw (← e) h)

enter_wait-open_waits :
    (agent room : Text) (s : Store)
    → (enter_wait agent room s).open_waits ≡ (
        if agent == []
        then s.open_waits
        else insert agent
            (insert room (wait_count agent room s + 1) (scopes_of agent s))
            s.open_waits)
unfolding enter_wait
enter_wait-open_waits agent room s = ground arith

pub enter_wait-WaitsValid :
    (agent room : Text) (s : Store) → WaitsValid s → WaitsValid (enter_wait agent room s)
enter_wait-WaitsValid agent room s v = elim (Bool-cases (agent == [])) [
  | inl none_given ↦ WaitsGood-of_eq (ground (arith, enter_wait-open_waits agent room s)) v
  | inr given ↦
      let count = wait_count agent room s + 1 in
      let scopes = insert room count (scopes_of agent s) in
      WaitsGood-of_eq (ground (arith, enter_wait-open_waits agent room s)) (
        put_scopes-WaitsValid agent scopes s
          (record {
            filled = insert-filled room count (scopes_of agent s);
            positive =
                insert-Positive room count (scopes_of agent s) (omega arith)
                  (scopes_of-Positive agent s v);
          })
          v)
]

drop_wait-WaitsValid :
    (agent room : Text) (s : Store) → WaitsValid s → WaitsValid (drop_wait agent room s)
unfolding drop_wait
drop_wait-WaitsValid agent room s v =
    let left = scopes_left room (scopes_of agent s) in
    elim (Bool-cases (is_filled left)) [
      | inl more ↦ rw more (
          put_scopes-WaitsValid agent left s
            (record {
              filled = more;
              positive =
                  scopes_left-Positive room (scopes_of agent s) (scopes_of-Positive agent s v);
            })
            v)
      | inr last ↦ rw last (λ a found h. v a found (delete_inv agent a found s.open_waits h))
    ]

pub leave_wait-WaitsValid :
    (agent room : Text) (s : Store) → WaitsValid s → WaitsValid (leave_wait agent room s)
leave_wait-WaitsValid agent room s v =
    elim (Bool-cases (not (agent == []) && ltb 0 (wait_count agent room s))) [
      | inl drops ↦
          WaitsGood-of_eq (ground (arith, leave_wait-open_waits agent room s))
            (drop_wait-WaitsValid agent room s v)
      | inr stays ↦ WaitsGood-of_eq (ground (arith, leave_wait-open_waits agent room s)) v
    ]
