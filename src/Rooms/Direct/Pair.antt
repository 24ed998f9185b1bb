-- ===== src/Rooms/Direct/Pair.antt =====
-- The promise of findOrCreateDM to its two agents, and what it does with one agent twice.
use aimebu.Prelude.{
  is_some, lookup, lookup-insert, contains, remove_first, Text, same_iff, text_eq, text_ltb,
  text_ltb_total, ◌==◌, nat_eq, Bool-cases, Option-cases, ℕ, ◌≡◌, refl, ◌∙◌, ◌≢◌, inl, inr, Bool,
  true, ◌&&◌, ◌||◌, none, some, [], ◌∷◌, arith,
}
use aimebu.Types.{after, Store, after_pair}
use aimebu.Rooms.{
  room_update, without_member, left_store, send, leave_room_with_event, ok, put_room, is_member,
  new_room,
}
use aimebu.Rooms.Valid.{emit_simple-rooms, GoodRoom, RoomsValid, AllGood-of_eq, put_room-RoomsValid}
use aimebu.Rooms.Direct.{repair, sorted_pair, dm_id, find_or_create_dm}
use aimebu.Rooms.Direct.Repair.{is_member-both_joined, repair-rooms, both_joined-RoomsValid}
use aimebu.Rooms.Membership.{no_room, is_member-put_room, is_member-of_eq}
use aimebu.Prefs.{room_pref}

-- The room's ID does not depend on who writes first.
pub dm_id_comm : (a b : Text) → dm_id a b ≡ dm_id b a
unfolding dm_id
dm_id_comm a b = ground (arith, text_ltb_total a b, text_ltb_total b a)

new_dm-GoodRoom :
    (a b : Text) (now : ℕ) (s : Store)
    → is_some (lookup a s.agents) ≡ true
    → is_some (lookup b s.agents) ≡ true
    → a ≢ b
    → GoodRoom s.agents
        (new_room (dm_id a b) ((sorted_pair a b).0 ∷ (sorted_pair a b).1 ∷ []) a now)
unfolding new_room contains lookup text_ltb
new_dm-GoodRoom a b now s ka kb ne = record {
  distinct = ground (arith, same_iff a b, same_iff b a);
  known = λ m h. ground (arith, same_iff a m, same_iff b m);
  held = λ m h. cc;
}

pub find_or_create_dm-RoomsValid :
    (a b : Text) (now : ℕ) (s : Store)
    → a ≢ b
    → RoomsValid s
    → RoomsValid (after_pair s (find_or_create_dm a b now s))
unfolding find_or_create_dm
find_or_create_dm-RoomsValid a b now s ne v =
    elim (Bool-cases (is_some (lookup a s.agents) && is_some (lookup b s.agents))) [
      | inr unknown ↦ rw unknown v
      | inl both ↦ elim (Option-cases (lookup (dm_id a b) s.rooms)) [
        | inr (r, e) ↦
            rw (both, e, find_or_create_dm)
              (AllGood-of_eq (repair-rooms (dm_id a b) a b now s)
                (both_joined-RoomsValid (dm_id a b) a b now s v))
        | inl e ↦
            rw (both, e, find_or_create_dm)
              (put_room-RoomsValid (dm_id a b) _ s
                (new_dm-GoodRoom a b now s (ground arith) (ground arith) ne) v)
      ]
    ]

-- Two registered agents always get the room of their pair, both are then in it, and no membership
-- of another room or of a third agent changes. (The room may be new, or one that either was
-- kicked from.)
pub find_or_create_dm_both :
    (a b rid m : Text) (now : ℕ) (s : Store)
    → is_some (lookup a s.agents) ≡ true
    → is_some (lookup b s.agents) ≡ true
    → (t : Store) × (find_or_create_dm a b now s ≡ ok (t, dm_id a b))
      × (is_member rid m t ≡ (is_member rid m s || (dm_id a b == rid && (a == m || b == m))))
unfolding find_or_create_dm new_room contains text_ltb
find_or_create_dm_both a b rid m now s ka kb = elim (Option-cases (lookup (dm_id a b) s.rooms)) [
  | inr (r, e) ↦ (
    repair (dm_id a b) a b now s,
    ground arith,
    is_member-of_eq rid m _ _ (repair-rooms (dm_id a b) a b now s).0
        ∙ is_member-both_joined (dm_id a b) a b rid m now s ka kb,
  )
  | inl e ↦
      let r = new_room (dm_id a b) ((sorted_pair a b).0 ∷ (sorted_pair a b).1 ∷ []) a now in
      (
        send room_update (put_room (dm_id a b) r s),
        ground arith,
        is_member-of_eq rid m (put_room (dm_id a b) r s)
              (send room_update (put_room (dm_id a b) r s)) refl
            ∙ is_member-put_room (dm_id a b) rid m r s
            ∙ ground (arith, no_room (dm_id a b) rid m s e, same_iff (dm_id a b) rid),
      )
]

-- A room that an agent hid stays hidden when a direct message makes it anew: the preferences that
-- a deleted room left behind are not cleared, though two agents are in it now.
pub new_dm_stays_hidden :
    (a b m : Text) (now : ℕ) (s t : Store) (id : Text)
    → lookup (dm_id a b) s.rooms ≡ none
    → find_or_create_dm a b now s ≡ ok (t, id)
    → room_pref m (dm_id a b) t ≡ room_pref m (dm_id a b) s
unfolding find_or_create_dm put_room room_pref
new_dm_stays_hidden a b m now s t id e h = ground arith

self_dm_room :
    (a : Text) (now : ℕ) (s : Store)
    → let r = new_room (dm_id a a) (a ∷ a ∷ []) a now in
      (lookup (dm_id a a) (put_room (dm_id a a) r s).rooms ≡ some r) × (contains a r.members ≡ true)
unfolding put_room new_room contains
self_dm_room a now s = (
  ground (
    arith,
    lookup-insert (dm_id a a) (dm_id a a) (new_room (dm_id a a) (a ∷ a ∷ []) a now) s.rooms,
    same_iff (dm_id a a) (dm_id a a),
  ),
  ground (arith, same_iff a a),
)

self_dm_left :
    (a : Text) (kicked : Bool) (now later : ℕ) (t : Store)
    → is_member
        (dm_id a a)
        a
        (left_store (dm_id a a) a kicked later (new_room (dm_id a a) (a ∷ a ∷ []) a now) t)
      ≡ true
unfolding left_store new_room without_member contains remove_first
self_dm_left a kicked now later t =
    let r = new_room (dm_id a a) (a ∷ a ∷ []) a now in
    is_member-of_eq (dm_id a a) a _ _ (emit_simple-rooms (dm_id a a) _ later _).0
    ∙ is_member-put_room (dm_id a a) (dm_id a a) a (without_member a r) t
    ∙ ground (arith, same_iff a a, same_iff (dm_id a a) (dm_id a a))

-- A direct message to oneself makes a room that lists its one member twice, so a kick leaves the
-- agent in it.
pub self_dm_survives_kick :
    (a : Text) (kicked : Bool) (now later : ℕ) (s : Store)
    → is_some (lookup a s.agents) ≡ true
    → lookup (dm_id a a) s.rooms ≡ none
    → let t = after_pair s (find_or_create_dm a a now s) in
      is_member (dm_id a a) a (after t (leave_room_with_event (dm_id a a) a kicked later t)) ≡ true
unfolding find_or_create_dm leave_room_with_event text_ltb
self_dm_survives_kick a kicked now later s ka e =
    let id = dm_id a a in
    let r = new_room id (a ∷ a ∷ []) a now in
    let t = send room_update (put_room id r s) in
    ground (arith, self_dm_room a now s, self_dm_left a kicked now later t, same_iff a a)
