-- ===== src/Prefs.antt =====
-- internal/server/store_room_prefs.go: which rooms a human hides or pins, and the handler of
-- POST /agents/{id}/rooms/{room_id}/prefs in internal/server/server.go.
pub mod Hidden
use aimebu.Prelude.{
  any, Map, or_zero, lookup, insert, delete, map_values, Text, text_eq, if◌then◌else◌, ◌==◌, nat_eq,
  Bool, false, not, ◌&&◌, ◌||◌, Option, none, some, List, [], ◌∷◌,
}
use aimebu.Types.{Store, Room, RoomPref, Error, Result, ok, err, is_ai, Agent}

abbrev pub no_pref : RoomPref
no_pref = record { hidden = false; pinned = false }

unfoldable pub room_pref : Text → Text → Store → RoomPref
room_pref agent room s = or_zero (lookup room (or_zero (lookup agent s.room_prefs) [])) no_pref

-- Whether a member other than `agent` is in the list.
unfoldable pub has_other : Text → List Text → Bool
has_other agent [] = false
has_other agent (m ∷ ms) = not (m == agent) || has_other agent ms

unfoldable pub room_has_other_member : Text → Text → Store → Bool
room_has_other_member room agent s = elim (lookup room s.rooms) [
  | none ↦ false
  | some r ↦ has_other agent r.members
]

pub room_has_ai_agent : Text → Store → Bool
room_has_ai_agent room s = elim (lookup room s.rooms) [
  | none ↦ false
  | some r ↦ any (λ m. elim (lookup m s.agents) [ none ↦ false | some a ↦ is_ai a.kind ]) r.members
]

-- A pointer to a flag that may be absent: nil leaves the field.
abbrev set_flag : Option Bool → Bool → Bool
set_flag none old = old
set_flag (some new) old = new

abbrev pub updated : Option Bool → Option Bool → RoomPref → RoomPref
updated hidden pinned p = record {
  hidden = set_flag hidden p.hidden;
  pinned = set_flag pinned p.pinned;
}

-- An agent whose last entry went has no inner map.
put_prefs : Text → Map Text RoomPref → Store → Store
put_prefs agent [] s = record s { room_prefs = delete agent s.room_prefs }
put_prefs agent (e ∷ prefs) s = record s { room_prefs = insert agent (e ∷ prefs) s.room_prefs }

pub set_room_pref : Text → Text → Option Bool → Option Bool → Store → Store × RoomPref
unfolding room_pref put_prefs
set_room_pref agent room hidden pinned s =
    let prefs = or_zero (lookup agent s.room_prefs) [] in
    let p = updated hidden pinned (room_pref agent room s) in
    (
      if not p.hidden && not p.pinned
          then put_prefs agent (delete room prefs) s
          else put_prefs agent (insert room p prefs) s,
      p,
    )

abbrev hides : Option Bool → Bool
hides none = false
hides (some b) = b

pub handle_set_prefs : Text → Text → Option Bool → Option Bool → Store → Result (Store × RoomPref)
unfolding room_has_other_member set_room_pref
handle_set_prefs agent room hidden pinned s =
    if hides hidden && room_has_other_member room agent s
    then err Error.hidden_conflict
    else ok (set_room_pref agent room hidden pinned s)

-- One agent's preferences without the hidden flag of `room`; an entry with no flag left goes.
unhide : Text → Map Text RoomPref → Map Text RoomPref
unhide room prefs = elim (lookup room prefs) [
  | none ↦ prefs
  | some p ↦
      if p.hidden
      then (if p.pinned then insert room (record p { hidden = false }) prefs else delete room prefs)
      else prefs
]

unfoldable pub clear_hidden_for_room : Text → Store → Store
unfolding unhide
clear_hidden_for_room room s = record s {
  room_prefs = map_values (λ _ prefs. unhide room prefs) s.room_prefs;
}

-- Only for the agents that one of `targets` names.
unfoldable pub unhide_room_for_addressed : (Text → Text → Bool) → Text → List Text → Store → Store
unfolding unhide
unhide_room_for_addressed matches room targets s = record s {
  room_prefs =
      map_values
        (λ agent prefs. if any (λ t. matches t agent) targets then unhide room prefs else prefs)
        s.room_prefs;
}
