-- ===== src/Rooms/Roles.antt =====
-- assignRole and getRoleCardinality of internal/server/roles.go.
pub mod Rules
use aimebu.Prelude.{
  select, Map, is_some, or_zero, lookup, insert, delete, contains, Text, bytes, text_eq, has_byte,
  before_byte, trim_space, to_lower, if◌then◌else◌, ◌==◌, nat_eq, ℕ, Bool, false, not, ◌&&◌, ◌||◌,
  Option, none, some, [], ◌∷◌, ◌++◌,
}
use aimebu.Types.{
  is_human, Room, room_update, Store, not_registered, room_not_found, not_member, name_required,
  role_conflict, human_role, Result, ok, err, send,
}
use aimebu.Posting.{emit_system_message_full}
use aimebu.Rooms.{put_room}

-- A stored cardinality counts if it is not empty.
abbrev given : Option Text → Option Text
given none = none
given (some []) = none
given (some (c ∷ s)) = some (c ∷ s)

abbrev first_given : Option Text → Text → Text
first_given none d = d
first_given (some c) d = c

-- normalizeRoleCardinality, with its caller's answer to an error.
unfoldable pub normalized : Option Text → Text
normalized none = bytes "multi"
normalized (some v) =
    let t = trim_space (to_lower v) in if t == bytes "singleton" then t else bytes "multi"

unfoldable pub get_role_cardinality : Text → Store → Text
unfolding normalized
get_role_cardinality key s =
    first_given (given (lookup key s.roles_overrides))
      (first_given (given (lookup key s.roles_custom)) (normalized (lookup key s.role_catalog)))

-- roleExists
unfoldable pub role_exists : Text → Store → Bool
role_exists key s = is_some (lookup key s.role_catalog) || is_some (lookup key s.roles_custom)

-- agentShortName of internal/server/addressing.go: an ID that begins with '@' is left whole.
unfoldable pub agent_short_name : Text → Text
agent_short_name id =
    let short = before_byte b'@' id in if has_byte b'@' id && not (short == []) then short else id

-- Whether another agent holds the role.
unfoldable pub held_by_other : Text → Text → Map Text Text → Bool
held_by_other agent key [] = false
held_by_other agent key ((holder, k) ∷ rest) =
    (k == key && not (holder == agent)) || held_by_other agent key rest

abbrev drop_key : Text → Map Text Text → Map Text Text
drop_key key = select (λ e. not (e.1 == key))

told : Text → Text → Text → ℕ → Store → Store
unfolding agent_short_name emit_system_message_full
told room agent what now s =
    emit_system_message_full room (agent ++ what) (some (agent_short_name agent ∷ [])) false now s

store_roles : Text → Room → Map Text Text → Store → Store
unfolding put_room
store_roles id r roles s = send room_update (put_room id (record r { roles = roles }) s)

-- The guards of an assignment, in the code's order, after the room was found.
unfoldable pub assign_to : Text → Text → Text → Bool → ℕ → Room → Store → Result Store
unfolding held_by_other told store_roles
assign_to room agent key singleton now r s = elim (lookup agent s.agents) [
  | none ↦ err not_registered
  | some a ↦
      if is_human a.kind
      then err human_role
      else if singleton && held_by_other agent key r.roles
      then err role_conflict
      else if or_zero (lookup agent r.roles) [] == key
      then ok s
      else ok (
          told room agent (bytes " was assigned as " ++ key) now
            (store_roles room r (insert agent key r.roles) s))
]

clear_of : Text → Text → ℕ → Room → Store → Result Store
unfolding told store_roles
clear_of room agent now r s =
    if is_some (lookup agent r.roles)
    then ok
        (told room agent (bytes " role cleared") now (store_roles room r (delete agent r.roles) s))
    else ok s

unfoldable pub assign_role : Text → Text → Text → ℕ → Store → Result Store
unfolding assign_to clear_of get_role_cardinality
assign_role room agent key now s =
    let singleton = not (key == []) && get_role_cardinality key s == bytes "singleton" in
    if room == [] then err name_required else elim (lookup room s.rooms) [
      | none ↦ err room_not_found
      | some r ↦
          if agent == []
          then ok (store_roles room r (drop_key key r.roles) s)
          else if key == []
          then clear_of room agent now r s
          else if contains agent r.members
          then assign_to room agent key singleton now r s
          else err not_member
    ]
