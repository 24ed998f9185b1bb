-- ===== src/Memory/Recall/Found.antt =====
-- What a recall answers with.
use aimebu.Prelude.{
  take, length, any, All, Map, or_zero, contains, Text, same_iff, text_eq, trim_space, to_lower,
  ltb, if◌then◌else◌, ◌==◌, Bool-cases, nat_eq, ℕ, zero, suc, ◌≤◌, ◌≡◌, refl, subst, inl, inr, Bool,
  true, false, not, ◌&&◌, ◌||◌, List, [], ◌∷◌, ◌++◌, arith,
}
use aimebu.Types.{Room, Message, Store, ok, bind-ok}
use aimebu.Posting.{room_messages_of}
use aimebu.Memory.{memory_agent}
use aimebu.Types.{is_system}
use aimebu.Memory.Recall.{
  recall_score, tokenize_recall, ranks_before, recall_messages, RecallResult, result_of, matches,
  may_recall, room_results, results_in, insert_result, sort_results,
}

or_later : (a : Bool) {b : Bool} → b ≡ true → (a || b) ≡ true
or_later true h = refl
or_later false h = h

or_first : {a : Bool} (b : Bool) → a ≡ true → (a || b) ≡ true
or_first b h = rw h

All-append :
    (P : RecallResult → Type 0) (xs ys : List RecallResult) → All P xs → All P ys → All P (xs ++ ys)
All-append P [] ys h k = k
All-append P (x ∷ xs) ys h k = (h.0, All-append P xs ys h.1 k)

All-map :
    (P Q : RecallResult → Type 0) (xs : List RecallResult)
    → ((h : RecallResult) → P h → Q h)
    → All P xs
    → All Q xs
All-map P Q [] f h = tt
All-map P Q (x ∷ xs) f h = (f x h.0, All-map P Q xs f h.1)

All-insert_result :
    (P : RecallResult → Type 0) (r : RecallResult) (xs : List RecallResult)
    → P r
    → All P xs
    → All P (insert_result r xs)
unfolding insert_result
All-insert_result P r [] p h = (p, tt)
All-insert_result P r (x ∷ xs) p h = elim (Bool-cases (ranks_before x r)) [
  | inl first ↦ rw first (h.0, All-insert_result P r xs p h.1)
  | inr later ↦ rw later (p, h)
]

All-sort : (P : RecallResult → Type 0) (xs : List RecallResult) → All P xs → All P (sort_results xs)
unfolding sort_results
All-sort P [] h = tt
All-sort P (x ∷ xs) h = All-insert_result P x (sort_results xs) h.0 (All-sort P xs h.1)

All-take :
    (P : RecallResult → Type 0) (n : ℕ) (xs : List RecallResult) → All P xs → All P (take n xs)
All-take P zero xs h = tt
All-take P (suc n) [] h = tt
All-take P (suc n) (x ∷ xs) h = (h.0, All-take P n xs h.1)

length-take-le : (n : ℕ) (xs : List RecallResult) → length (take n xs) ≤ n
length-take-le zero xs = omega arith
length-take-le (suc n) [] = omega arith
length-take-le (suc n) (x ∷ xs) = omega (arith, length-take-le n xs)

-- No result ranks before the one above it.
abbrev pub Ranked : List RecallResult → Type 0
Ranked [] = Unit {0}
Ranked (x ∷ []) = Unit {0}
Ranked (x ∷ y ∷ ys) = (ranks_before y x ≡ false) × Ranked (y ∷ ys)

Ranked-take : (n : ℕ) (xs : List RecallResult) → Ranked xs → Ranked (take n xs)
Ranked-take zero xs h = tt
Ranked-take (suc n) [] h = tt
Ranked-take (suc zero) (x ∷ xs) h = tt
Ranked-take (suc (suc n)) (x ∷ []) h = tt
Ranked-take (suc (suc n)) (x ∷ y ∷ ys) h = (h.0, Ranked-take (suc n) (y ∷ ys) h.1)

Ranked-insert_result :
    (r : RecallResult) (xs : List RecallResult) → Ranked xs → Ranked (insert_result r xs)
unfolding insert_result ranks_before
Ranked-insert_result r [] h = tt
Ranked-insert_result r (x ∷ []) h = ground arith
Ranked-insert_result r (x ∷ y ∷ ys) h = ground (arith, Ranked-insert_result r (y ∷ ys) h.1)

Ranked-sort : (xs : List RecallResult) → Ranked (sort_results xs)
unfolding sort_results
Ranked-sort [] = tt
Ranked-sort (x ∷ xs) = Ranked-insert_result x (sort_results xs) (Ranked-sort xs)

module _ (agent query : Text) (terms : List Text) (s : Store) where
  -- Some room with the agent in it, whose memory is not turned off, holds the message, which is not
  -- the system's and matches the query.
  abbrev pub is_from : RecallResult → Message → Bool
  is_from h m =
      m.id == h.message_id
      && (m.from == h.from
          && (not (is_system m.from_kind) && ltb 0 (recall_score m.body terms query)))

  abbrev pub may_show : Map Text Room → RecallResult → Bool
  may_show rooms h =
      any
        (λ row.
          contains agent row.1.members
          && (or_zero row.1.memory_enabled true && any (is_from h) (room_messages_of row.1.id s)))
        rooms

  own :
      (m : Message) (ms : List Message)
      → matches query terms m ≡ true
      → any (is_from (result_of query terms m)) (m ∷ ms) ≡ true
  unfolding result_of matches
  own m ms hit = ground (arith, (nat_eq.agrees m.id m.id).1 refl, (same_iff m.from m.from).1 refl)

  room_results-from :
      (ms all : List Message)
      → ((h : RecallResult) → any (is_from h) ms ≡ true → any (is_from h) all ≡ true)
      → All (λ h. any (is_from h) all ≡ true) (room_results query terms ms)
  unfolding room_results result_of
  room_results-from [] all up = tt
  room_results-from (m ∷ ms) all up =
      let tail = room_results-from ms all (λ h held. up h (or_later (is_from h m) held)) in
      elim (Bool-cases (matches query terms m)) [
        | inl hit ↦ rw hit (up (result_of query terms m) (own m ms hit), tail)
        | inr miss ↦ rw miss tail
      ]

  results_in-may_show :
      (rooms all : Map Text Room)
      → ((h : RecallResult) → may_show rooms h ≡ true → may_show all h ≡ true)
      → All (λ h. may_show all h ≡ true) (results_in agent query terms s rooms)
  unfolding results_in may_recall
  results_in-may_show [] all up = tt
  results_in-may_show ((id, r) ∷ rooms) all up =
      let tail = results_in-may_show rooms all (λ h held. up h (or_later _ held)) in
      elim (Bool-cases (contains agent r.members)) [
        | inl inside ↦ elim (Bool-cases (or_zero r.memory_enabled true)) [
          | inl on ↦
              rw (inside, on)
                (All-append (λ h. may_show all h ≡ true)
                  (room_results query terms (room_messages_of r.id s))
                  (results_in agent query terms s rooms)
                  (All-map _ _ _ (λ h held. up h (rw (inside, on) (or_first _ held)))
                    (room_results-from (room_messages_of r.id s) (room_messages_of r.id s)
                      (λ h held. held)))
                  tail)
          | inr off ↦ rw (inside, off) tail
        ]
        | inr outside ↦ rw outside tail
      ]

-- A recall that succeeds answers with at most ten messages, none ranking before the one above it;
-- each is in a room of which the agent is a member and whose memory is not turned off, none is the
-- system's, and each matches the query.
pub recall_messages_lem :
    (agent text : Text) (limit : ℕ) (s : Store) (found : List RecallResult)
    → recall_messages agent text limit s ≡ ok found
    → (length found ≤ 10)
      × Ranked found
      × All
          (λ h.
            may_show agent
              (to_lower (trim_space text))
              (tokenize_recall (trim_space text))
              s
              s.rooms
              h
            ≡ true)
          found
unfolding recall_messages
recall_messages_lem agent text limit s found h =
    let (a, e0, h0) = bind-ok (memory_agent agent s) _ found h in
    let query = to_lower (trim_space text) in
    let terms = tokenize_recall (trim_space text) in
    let kept = if limit == 0 || ltb 10 limit then 10 else limit in
    let all = results_in agent query terms s s.rooms in
    let done : take kept (sort_results all) ≡ found = ground arith in
    let few : kept ≤ 10 = ground arith in
    subst
      (λ (q : List RecallResult).
        (length q ≤ 10) × Ranked q × All (λ h. may_show agent query terms s s.rooms h ≡ true) q)
      done
      (
        omega (arith, length-take-le kept (sort_results all)),
        Ranked-take kept (sort_results all) (Ranked-sort all),
        All-take _ kept (sort_results all) (
            All-sort _ all
              (results_in-may_show agent query terms s s.rooms s.rooms (λ h held. held))),
      )
