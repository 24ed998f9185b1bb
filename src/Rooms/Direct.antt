-- ===== src/Rooms/Direct.antt =====
-- findOrCreateDM of internal/server/store_rooms.go: the room of two agents, and self-messages.
pub mod Pair
pub mod Repair
use aimebu.Prelude.{
  is_some, lookup, Text, bytes, text_eq, text_ltb, if◌then◌else◌, nat_eq, ℕ, Bool, ◌&&◌, ◌||◌, none,
  some, List, [], ◌∷◌, ◌++◌,
}
use aimebu.Types.{room_update, Store, not_registered, Result, ok, err, send}
use aimebu.Posting.{emit_system_message}
use aimebu.Rooms.{new_room, put_room, join_room_internal_locked}

-- sort.Strings of two.
abbrev pub sorted_pair : Text → Text → Text × Text
sorted_pair a b = if text_ltb b a then (b, a) else (a, b)

unfoldable pub dm_id : Text → Text → Text
unfolding text_ltb
dm_id a b = let (x, y) = sorted_pair a b in bytes "dm:" ++ (x ++ (bytes ":" ++ y))

announce_joined : Text → ℕ → List Text → Store → Store
unfolding emit_system_message
announce_joined id now [] s = s
announce_joined id now (a ∷ rest) s =
    announce_joined id now rest (emit_system_message id (a ++ bytes " joined") now s)

-- Members of an existing room that were kicked come back.
pub repair : Text → Text → Text → ℕ → Store → Store
unfolding join_room_internal_locked announce_joined
repair id a b now s =
    let (s₁, joined_a) = join_room_internal_locked id a now s in
    let (s₂, joined_b) = join_room_internal_locked id b now s₁ in
    let none_or = λ (x : Text) (j : Bool). if j then x ∷ [] else [] in
    let joined = none_or a joined_a ++ none_or b joined_b in
    if joined_a || joined_b then announce_joined id now joined (send room_update s₂) else s₂

unfoldable pub find_or_create_dm : Text → Text → ℕ → Store → Result (Store × Text)
unfolding dm_id put_room new_room repair
find_or_create_dm a b now s =
    let (x, y) = sorted_pair a b in
    let id = dm_id a b in
    if is_some (lookup a s.agents) && is_some (lookup b s.agents)
    then elim (lookup id s.rooms) [
      | some r ↦ ok (repair id a b now s, id)
      | none ↦ ok (send room_update (put_room id (new_room id (x ∷ y ∷ []) a now) s), id)
    ]
    else err not_registered
