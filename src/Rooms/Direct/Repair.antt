-- ===== src/Rooms/Direct/Repair.antt =====
-- What findOrCreateDM guarantees: one room for the pair, in either order, with both in it.
use aimebu.Prelude.{
  is_some, lookup, contains, contains-snoc, Text, bytes, same_iff, text_eq, if◌then◌else◌, ◌==◌,
  nat_eq, Bool-cases, ℕ, ◌≡◌, refl, ◌∙◌, inl, inr, Bool, true, ◌&&◌, ◌||◌, List, [], ◌∷◌, ◌++◌,
  arith,
}
use aimebu.Types.{room_update, Store, send}
use aimebu.Posting.{emit_system_message}
use aimebu.Prefs.{clear_hidden_for_room}
use aimebu.Rooms.{
  put_room, is_member, room_or_new, with_member, add_member, join_room_internal_locked,
}
use aimebu.Rooms.Valid.{RoomsValid, emit_simple-rooms, room_or_new-GoodRoom}
use aimebu.Rooms.Steps.{add_member-RoomsValid}
use aimebu.Rooms.Membership.{is_member-of_eq, is_member-put_room, contains-room_or_new}
use aimebu.Rooms.Direct.{announce_joined, repair}

pub join_locked-RoomsValid :
    (id agent : Text) (now : ℕ) (s : Store)
    → RoomsValid s
    → RoomsValid (join_room_internal_locked id agent now s).0
unfolding join_room_internal_locked
join_locked-RoomsValid id agent now s v = elim (Bool-cases (is_some (lookup agent s.agents))) [
  | inr unknown ↦ rw unknown v
  | inl known ↦ elim (Bool-cases (contains agent (room_or_new id agent now s).members)) [
    | inl old ↦ rw (known, old) v
    | inr new ↦
        rw (known, new)
          (add_member-RoomsValid id agent _ s (room_or_new-GoodRoom id agent now s v) new known v)
  ]
]

announce_joined-rooms :
    (id : Text) (now : ℕ) (ids : List Text) (s : Store)
    → ((announce_joined id now ids s).rooms ≡ s.rooms)
      × ((announce_joined id now ids s).agents ≡ s.agents)
unfolding announce_joined
announce_joined-rooms id now [] s = (refl, refl)
announce_joined-rooms id now (a ∷ rest) s =
    let s' = emit_system_message id (a ++ bytes " joined") now s in
    let (p, q) = announce_joined-rooms id now rest s' in
    let (p', q') = emit_simple-rooms id (a ++ bytes " joined") now s in (p ∙ p', q ∙ q')

-- Both joins, with the rooms as they leave them.
pub both_joined : Text → Text → Text → ℕ → Store → Store
both_joined id a b now s =
    (join_room_internal_locked id b now (join_room_internal_locked id a now s).0).0

pub repair-rooms :
    (id a b : Text) (now : ℕ) (s : Store)
    → ((repair id a b now s).rooms ≡ (both_joined id a b now s).rooms)
      × ((repair id a b now s).agents ≡ (both_joined id a b now s).agents)
unfolding repair both_joined
repair-rooms id a b now s =
    let (s₁, joined_a) = join_room_internal_locked id a now s in
    let (s₂, joined_b) = join_room_internal_locked id b now s₁ in
    let none_or = λ (x : Text) (j : Bool). if j then x ∷ [] else [] in
    ground (
      arith,
      announce_joined-rooms id now (none_or a joined_a ++ none_or b joined_b) (send room_update s₂),
    )

is_member-join_locked :
    (id agent rid a : Text) (now : ℕ) (s : Store)
    → is_some (lookup agent s.agents) ≡ true
    → is_member rid a (join_room_internal_locked id agent now s).0
      ≡ (is_member rid a s || (id == rid && agent == a))
unfolding join_room_internal_locked add_member clear_hidden_for_room with_member
is_member-join_locked id agent rid a now s known =
    let r = room_or_new id agent now s in
    ground (
      arith,
      contains-room_or_new id agent agent now s,
      contains-room_or_new id agent a now s,
      is_member-put_room id rid a (with_member agent r) s,
      is_member-of_eq rid a (put_room id (with_member agent r) s) (add_member id agent r s) refl,
      contains-snoc a agent r.members,
      same_iff id rid,
      same_iff agent a,
    )

join_locked-agents :
    (id agent : Text) (now : ℕ) (s : Store)
    → (join_room_internal_locked id agent now s).0.agents ≡ s.agents
unfolding join_room_internal_locked add_member clear_hidden_for_room put_room
join_locked-agents id agent now s = ground arith

pub both_joined-RoomsValid :
    (id a b : Text) (now : ℕ) (s : Store) → RoomsValid s → RoomsValid (both_joined id a b now s)
unfolding both_joined
both_joined-RoomsValid id a b now s v =
    join_locked-RoomsValid id b now _ (join_locked-RoomsValid id a now s v)

pub is_member-both_joined :
    (id a b rid m : Text) (now : ℕ) (s : Store)
    → is_some (lookup a s.agents) ≡ true
    → is_some (lookup b s.agents) ≡ true
    → is_member rid m (both_joined id a b now s)
      ≡ (is_member rid m s || (id == rid && (a == m || b == m)))
unfolding both_joined
is_member-both_joined id a b rid m now s ka kb =
    let s₁ = (join_room_internal_locked id a now s).0 in
    ground (
      arith,
      is_member-join_locked id a rid m now s ka,
      is_member-join_locked id b rid m now s₁,
      join_locked-agents id a now s,
    )
