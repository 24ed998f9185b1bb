-- ===== src/Sending/Alerts.antt =====
-- The humans that an alert joins to a room: histories and rooms stay valid.
use aimebu.Prelude.{
  Map, is_some, or_zero, lookup, Text, bytes, text_eq, Bool-cases, nat_eq, ℕ, ◌+◌, ◌≤◌, ◌≡◌, refl,
  inl, inr, false, not, ◌&&◌, Option, none, List, [], ◌∷◌, ◌++◌, arith,
}
use aimebu.Types.{is_human, Room, Agent, room_update, Store, send, after_pair}
use aimebu.Posting.{
  system_name, is_dm, append_message, announce, emit_system_message_full, emit_system_message,
}
use aimebu.Prefs.{clear_hidden_for_room}
use aimebu.Messages.{}
use aimebu.Messages.Order.{IdsValid, emit-IdsValid}
use aimebu.Rooms.{
  put_room, is_reserved, announce_room, is_member, room_or_new, add_member, joined_store, join_room,
}
use aimebu.Rooms.Valid.{RoomsValid, AllGood-of_eq}
use aimebu.Rooms.Steps.{join_room_cases, join_room-RoomsValid}
use aimebu.Agents.{}
use aimebu.Agents.Register.Rules.{}
use aimebu.Sending.{is_filled, join_humans, alert}

-- Valid, and not behind `n` in its message IDs.
pub record Later (n : ℕ) (t : Store) : Type 0 where
  pub ids : IdsValid t
  pub rooms : RoomsValid t
  pub above : n ≤ t.next_id

pub IdsValid-of_eq :
    (s t : Store) → t.messages ≡ s.messages → t.next_id ≡ s.next_id → IdsValid s → IdsValid t
IdsValid-of_eq s t m n v room = rw (m, n) (v room)

emit-next_id :
    (room body : Text) (now : ℕ) (s : Store)
    → (emit_system_message room body now s).next_id ≡ s.next_id + 1
unfolding emit_system_message emit_system_message_full append_message announce
emit-next_id room body now s = ground arith

emit-Later :
    (n : ℕ) (room body : Text) (now : ℕ) (s : Store)
    → IdsValid s × (n ≤ s.next_id)
    → IdsValid (emit_system_message room body now s)
      × (n ≤ (emit_system_message room body now s).next_id)
emit-Later n room body now s (v, h) = (
  unfold emit_system_message in emit-IdsValid room body none false now s v,
  omega (arith, emit-next_id room body now s),
)

add_member-fields :
    (id agent : Text) (r : Room) (s : Store)
    → ((add_member id agent r s).messages ≡ s.messages)
      × ((add_member id agent r s).next_id ≡ s.next_id)
unfolding add_member put_room clear_hidden_for_room
add_member-fields id agent r s = (refl, refl)

announce_room-Later :
    (n : ℕ) (id what : Text) (now : ℕ) (s : Store)
    → IdsValid s × (n ≤ s.next_id)
    → IdsValid (announce_room id what now s) × (n ≤ (announce_room id what now s).next_id)
unfolding announce_room
announce_room-Later n id what now s h = elim (Bool-cases (not (is_reserved id) && not (is_dm id))) [
  | inl told ↦ rw told (emit-Later n system_name (bytes "room " ++ (id ++ what)) now s h)
  | inr quiet ↦ rw quiet h
]

joined_store-Later :
    (n : ℕ) (id agent : Text) (now : ℕ) (r : Room) (s : Store)
    → IdsValid s × (n ≤ s.next_id)
    → IdsValid (joined_store id agent now r s) × (n ≤ (joined_store id agent now r s).next_id)
unfolding joined_store
joined_store-Later n id agent now r s (v, h) =
    let joined = send room_update (add_member id agent r s) in
    let (m, i) = add_member-fields id agent r s in
    let start : IdsValid joined × (n ≤ joined.next_id) = (IdsValid-of_eq s joined m i v, rw i h) in
    elim (Bool-cases (is_some (lookup id s.rooms))) [
      | inl old ↦ rw old (emit-Later n id (agent ++ bytes " joined") now joined start)
      | inr new ↦ rw new (
          emit-Later n id (agent ++ bytes " joined") now
            (announce_room id (bytes " created") now joined)
            (announce_room-Later n id (bytes " created") now joined start))
    ]

join_room-Later :
    (n : ℕ) (id agent : Text) (now : ℕ) (s : Store)
    → Later n s
    → Later n (after_pair s (join_room id agent now s))
join_room-Later n id agent now s l =
    let (v, h) =
      join_room_cases (λ t. IdsValid t × (n ≤ t.next_id)) id agent now s (l.ids, l.above)
        (λ _ _.
          joined_store-Later n id agent now (room_or_new id agent now s) s (l.ids, l.above)) in
    record { ids = v; rooms = join_room-RoomsValid id agent now s l.rooms; above = h }

join_humans-Later :
    (n : ℕ) (room : Text) (now : ℕ) (agents : Map Text Agent) (s : Store)
    → Later n s
    → Later n (join_humans room now agents s)
unfolding join_humans
join_humans-Later n room now [] s l = l
join_humans-Later n room now ((id, a) ∷ rest) s l =
    elim (Bool-cases (is_human a.kind && not (is_member room a.id s))) [
      | inl joins ↦
          rw joins (join_humans-Later n room now rest _ (join_room-Later n room a.id now s l))
      | inr stays ↦ rw stays (join_humans-Later n room now rest s l)
    ]

pub Later-of_eq :
    (n : ℕ) (s t : Store)
    → (t.messages ≡ s.messages)
      × (t.next_id ≡ s.next_id)
      × (t.rooms ≡ s.rooms)
      × (t.agents ≡ s.agents)
    → Later n s
    → Later n t
Later-of_eq n s t (m, i, r, a) l = record {
  ids = IdsValid-of_eq s t m i l.ids;
  rooms = AllGood-of_eq (r, a) l.rooms;
  above = rw i l.above;
}

pub alert-Later :
    (n : ℕ) (room : Text) (targets : Option (List Text)) (now : ℕ) (s : Store)
    → Later n s
    → Later n (alert room targets now s)
unfolding alert
alert-Later n room targets now s l =
    let joined = join_humans room now s.agents s in
    let l' = join_humans-Later n room now s.agents s l in
    elim (Bool-cases (is_filled (or_zero targets []))) [
      | inl some_named ↦ rw some_named (Later-of_eq n joined _ (refl, refl, refl, refl) l')
      | inr nobody ↦ rw nobody l'
    ]
