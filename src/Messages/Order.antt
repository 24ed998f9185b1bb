-- ===== src/Messages/Order.antt =====
-- Message IDs: every room's history is in the order of its IDs, all drawn from the counter.
use aimebu.Prelude.{
  ℤ, length, drop, select, All, length-drop, length-reverse, lookup, lookup-insert, Text, text_eq,
  ltb, ◌==◌, Bool-cases, Option-cases, nat_eq, ℕ, zero, suc, ◌+◌, ◌-◌, ◌≤◌, ◌<◌, ◌≡◌, refl, inl,
  inr, Bool, true, false, ◌&&◌, Option, List, [], ◌∷◌, ◌++◌, reverse, reverse-cons, arith,
}
use aimebu.Types.{Message, Store}
use aimebu.Posting.{
  announce, system_message, emit_system_message_full, append_message, room_messages_of,
}
use aimebu.Messages.{room_head, last_id, newest, room_messages_with_expiry}
use aimebu.Messages.Expiry.{room_messages_with_expiry_by_scan, scanned}

-- IDs rise strictly from above `lo` to below `hi`.
abbrev pub Rising : ℕ → List Message → ℕ → Type 0
Rising lo [] hi = lo < hi
Rising lo (m ∷ ms) hi = (lo < m.id) × Rising m.id ms hi

-- IDs fall strictly from below `hi` to above `lo`.
abbrev pub Falling : ℕ → List Message → ℕ → Type 0
Falling hi [] lo = lo < hi
Falling hi (m ∷ ms) lo = (m.id < hi) × Falling m.id ms lo

abbrev pub IdsValid : Store → Type 0
IdsValid s = (room : Text) → Rising 0 (room_messages_of room s) (s.next_id + 1)

Rising-le : (lo hi : ℕ) (ms : List Message) → Rising lo ms hi → lo < hi
Rising-le lo hi [] r = r
Rising-le lo hi (m ∷ ms) r = omega (arith, Rising-le m.id hi ms r.1)

Rising-lower : (lo lo' hi : ℕ) (ms : List Message) → lo' ≤ lo → Rising lo ms hi → Rising lo' ms hi
Rising-lower lo lo' hi [] h r = omega arith
Rising-lower lo lo' hi (m ∷ ms) h r = (omega arith, r.1)

Rising-upper : (lo hi hi' : ℕ) (ms : List Message) → hi ≤ hi' → Rising lo ms hi → Rising lo ms hi'
Rising-upper lo hi hi' [] h r = omega arith
Rising-upper lo hi hi' (m ∷ ms) h r = (r.0, Rising-upper m.id hi hi' ms h r.1)

Rising-snoc :
    (lo : ℕ) (ms : List Message) (m : Message) (hi : ℕ)
    → Rising lo ms m.id
    → m.id < hi
    → Rising lo (ms ++ m ∷ []) hi
Rising-snoc lo [] m hi r h = (r, h)
Rising-snoc lo (x ∷ ms) m hi r h = (r.0, Rising-snoc x.id ms m hi r.1 h)

Rising-select :
    (p : Message → Bool) (lo hi : ℕ) (ms : List Message)
    → Rising lo ms hi
    → Rising lo (select p ms) hi
Rising-select p lo hi [] r = r
Rising-select p lo hi (m ∷ ms) r = elim (Bool-cases (p m)) [
  | inl keep ↦ rw keep (r.0, Rising-select p m.id hi ms r.1)
  | inr skip ↦
      rw skip (Rising-lower m.id lo hi (select p ms) (omega arith) (Rising-select p m.id hi ms r.1))
]

Rising-drop : (n lo hi : ℕ) (ms : List Message) → Rising lo ms hi → Rising lo (drop n ms) hi
Rising-drop zero lo hi ms r = r
Rising-drop (suc n) lo hi [] r = r
Rising-drop (suc n) lo hi (m ∷ ms) r =
    Rising-lower m.id lo hi (drop n ms) (omega arith) (Rising-drop n m.id hi ms r.1)

Falling-snoc :
    (hi : ℕ) (ms : List Message) (m : Message) (lo : ℕ)
    → Falling hi ms m.id
    → lo < m.id
    → Falling hi (ms ++ m ∷ []) lo
Falling-snoc hi [] m lo r h = (r, h)
Falling-snoc hi (x ∷ ms) m lo r h = (r.0, Falling-snoc x.id ms m lo r.1 h)

reverse-Falling : (lo hi : ℕ) (ms : List Message) → Rising lo ms hi → Falling hi (reverse ms) lo
reverse-Falling lo hi [] r = r
reverse-Falling lo hi (m ∷ ms) r =
    rw (reverse-cons m ms) (Falling-snoc hi (reverse ms) m lo (reverse-Falling m.id hi ms r.1) r.0)

newest-Falling :
    (limit hi : ℕ) (ms : List Message) → Rising 0 ms hi → Falling hi (reverse (newest limit ms)) 0
unfolding newest
newest-Falling limit hi ms r = elim (Bool-cases (ltb 0 limit && ltb limit (length ms))) [
  | inl cut ↦ rw cut (reverse-Falling 0 hi _ (Rising-drop (length ms - limit) 0 hi ms r))
  | inr all ↦ rw all (reverse-Falling 0 hi ms r)
]

length-newest {ℓ} :
    {A : Type ℓ} (limit : ℕ) (xs : List A) → 0 < limit → length (newest limit xs) ≤ limit
unfolding newest
length-newest limit xs h = ground (arith, length-drop (length xs - limit) xs)

-- A bulk read with a limit lists its messages newest first, never more than the limit.
pub room_messages_with_expiry_order :
    (room : Text) (limit : ℕ) (since : ℤ) (before window now : ℕ) (s : Store)
    → IdsValid s
    → 0 < limit
    → let live = (room_messages_with_expiry room limit since before window now s).0 in
      Falling (s.next_id + 1) live 0 × (length live ≤ limit)
room_messages_with_expiry_order room limit since before window now s v h =
    let kept = select (scanned since before window now) (room_messages_of room s) in
    rw ((room_messages_with_expiry_by_scan since before window now room limit s).0) (
      newest-Falling limit (s.next_id + 1) kept
          (Rising-select _ 0 _ (room_messages_of room s) (v room)),
      omega (arith, length-reverse (newest limit kept), length-newest limit kept h),
    )

-- The IDs of the messages that a write adds to.
pub append-Rising :
    (room r : Text) (m : Message) (s : Store)
    → m.id ≡ s.next_id + 1
    → IdsValid s
    → Rising 0
        (room_messages_of r (append_message room m (record s { next_id = s.next_id + 1 })))
        (s.next_id + 1 + 1)
unfolding append_message
append-Rising room r m s e v = elim (Bool-cases (room == r)) [
  | inl hit ↦
      rw (lookup-insert room r (room_messages_of room s ++ m ∷ []) s.messages, hit)
        (Rising-snoc 0 (room_messages_of room s) m (s.next_id + 1 + 1) (rw e (v room))
          (omega arith))
  | inr miss ↦
      rw (lookup-insert room r (room_messages_of room s ++ m ∷ []) s.messages, miss)
        (Rising-upper 0 (s.next_id + 1) (s.next_id + 1 + 1) (room_messages_of r s) (omega arith)
          (v r))
]

pub announce-IdsValid :
    (m : Message) (attention : Bool) (s : Store) → IdsValid s → IdsValid (announce m attention s)
unfolding announce
announce-IdsValid m true s v = v
announce-IdsValid m false s v = v

-- A system message keeps every history in the order of its IDs, also where its room is gone.
pub emit-IdsValid :
    (room body : Text) (targets : Option (List Text)) (attention : Bool) (now : ℕ) (s : Store)
    → IdsValid s
    → IdsValid (emit_system_message_full room body targets attention now s)
unfolding emit_system_message_full system_message
emit-IdsValid room body targets attention now s v = elim (Option-cases (lookup room s.rooms)) [
  | inl e ↦
      rw (e, emit_system_message_full)
        (λ r. Rising-upper 0 _ _ (room_messages_of r s) (omega arith) (v r))
  | inr (q, e) ↦
      let m = system_message (s.next_id + 1) room body targets attention now in
      rw (e, emit_system_message_full)
        (announce-IdsValid m attention
          (append_message room m (record s { next_id = s.next_id + 1 }))
          (λ r. append-Rising room r m s refl v))
]

last_id-Rising :
    (lo hi : ℕ) (m : Message) (ms : List Message)
    → Rising lo (m ∷ ms) hi
    → (last_id (m ∷ ms) < hi)
      × All (λ x. x.id ≤ last_id (m ∷ ms)) (m ∷ ms)
      × (m.id ≤ last_id (m ∷ ms))
unfolding last_id
last_id-Rising lo hi m [] r = (r.1, (omega arith, tt), omega arith)
last_id-Rising lo hi m (n ∷ ms) r =
    let (below, all, first) = last_id-Rising m.id hi n ms r.1 in
    (below, (omega arith, all), omega arith)

-- The head of a room is the largest ID stored in it.
pub room_head_max :
    (room : Text) (s : Store)
    → IdsValid s
    → All (λ m. m.id ≤ room_head room s) (room_messages_of room s) × (room_head room s ≤ s.next_id)
unfolding room_head
room_head_max room s v = go (room_messages_of room s) (v room)
  where
    go :
        (ms : List Message)
        → Rising 0 ms (s.next_id + 1)
        → All (λ m. m.id ≤ last_id ms) ms × (last_id ms ≤ s.next_id)
    go [] r = (tt, unfold last_id in omega arith)
    go (m ∷ ms) r =
        let (below, all, _) = last_id-Rising 0 (s.next_id + 1) m ms r in (all, omega arith)
