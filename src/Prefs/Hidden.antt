-- ===== src/Prefs/Hidden.antt =====
-- What a change of a preference shows when the preferences are read back.
use aimebu.Prelude.{
  inl, inr, Option-cases, Map, or_zero, lookup, insert, delete, lookup-insert, lookup-delete,
  lookup-map_values, Text, same_iff, text_eq, if◌then◌else◌, ◌==◌, nat_eq, ◌≡◌, Bool, true, false,
  ◌&&◌, Option, [], ◌∷◌, arith,
}
use aimebu.Types.{Store, RoomPref}
use aimebu.Prefs.{
  no_pref, room_pref, unhide, put_prefs, set_room_pref, clear_hidden_for_room, updated,
}

-- What `agent` sees of `room` in one agent's preferences.
abbrev pub seen : Text → Map Text RoomPref → RoomPref
seen room prefs = or_zero (lookup room prefs) no_pref

seen-unhide :
    (room r : Text) (prefs : Map Text RoomPref)
    → seen r (unhide room prefs) ≡ (
        if room == r
        then record { hidden = false; pinned = (seen r prefs).pinned }
        else seen r prefs)
unfolding unhide
seen-unhide room r prefs = ground (
  arith,
  lookup-insert room r (record { hidden = false; pinned = true }) prefs,
  lookup-delete room r prefs,
  same_iff room r,
)

seen-put_prefs :
    (agent a r : Text) (prefs : Map Text RoomPref) (s : Store)
    → room_pref a r (put_prefs agent prefs s)
      ≡ (if agent == a then seen r prefs else room_pref a r s)
unfolding room_pref put_prefs lookup
seen-put_prefs agent a r [] s = ground (arith, lookup-delete agent a s.room_prefs)
seen-put_prefs agent a r (e ∷ prefs) s =
    ground (arith, lookup-insert agent a (e ∷ prefs) s.room_prefs)

-- A set preference is read back, with the absent flags as they were; every other agent's and
-- every other room's preference stays.
pub room_pref-set_room_pref :
    (agent room a r : Text) (hidden pinned : Option Bool) (s : Store)
    → room_pref a r (set_room_pref agent room hidden pinned s).0 ≡ (
        if agent == a && room == r
        then updated hidden pinned (room_pref agent room s)
        else room_pref a r s)
unfolding set_room_pref
room_pref-set_room_pref agent room a r hidden pinned s =
    let prefs = or_zero (lookup agent s.room_prefs) [] in
    let p = updated hidden pinned (room_pref agent room s) in
    ground (
      arith,
      seen-put_prefs agent a r (delete room prefs) s,
      seen-put_prefs agent a r (insert room p prefs) s,
      lookup-insert room r p prefs,
      lookup-delete room r prefs,
      same_iff agent a,
      same_iff room r,
    )

-- After a join nobody sees the room hidden; pins and all other rooms stay.
pub room_pref-clear_hidden :
    (room a r : Text) (s : Store)
    → room_pref a r (clear_hidden_for_room room s) ≡ (
        if room == r
        then record { hidden = false; pinned = (room_pref a r s).pinned }
        else room_pref a r s)
unfolding room_pref clear_hidden_for_room lookup
room_pref-clear_hidden room a r s = elim (Option-cases (lookup a s.room_prefs)) [
  | inl e ↦ rw (lookup-map_values (λ _ prefs. unhide room prefs) a s.room_prefs, e) (ground arith)
  | inr (prefs, e) ↦
      rw (lookup-map_values (λ _ prefs. unhide room prefs) a s.room_prefs, e)
        (seen-unhide room r prefs)
]
