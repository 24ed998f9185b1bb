-- ===== src/Agents/Removal/Clearing.antt =====
-- What a plain prune leaves of the rooms.
use aimebu.Prelude.{
  Map, is_some, lookup, delete, lookup-delete, lookup-map_values, contains, select-nil, Text,
  same_iff, text_eq, nat_eq, ◌≡◌, refl, false, not, ◌&&◌, some, List, [], ◌∷◌, arith,
}
use aimebu.Types.{Room, Agent, Store}
use aimebu.Rooms.Valid.{GoodRoom, RoomsValid}
use aimebu.Agents.Removal.{drop_roles, cleared_room, clear_all}

drop_roles-lookup :
    (agents : Map Text Agent) (ms : List Text) (roles : Map Text Text) (m : Text)
    → is_some (lookup m (drop_roles agents ms roles))
      ≡ (is_some (lookup m roles) && not (contains m ms && is_some (lookup m agents)))
unfolding drop_roles contains
drop_roles-lookup agents [] roles m = ground arith
drop_roles-lookup agents (x ∷ ms) roles m = ground (
  arith,
  drop_roles-lookup agents ms roles m,
  drop_roles-lookup agents ms (delete x roles) m,
  lookup-delete x m roles,
  same_iff x m,
)

cleared_members :
    (agents : Map Text Agent) (r : Room) → GoodRoom agents r → (cleared_room agents r).members ≡ []
unfolding cleared_room
cleared_members agents r g =
    select-nil (λ x. not (is_some (lookup x agents))) r.members (λ a h. ground (arith, g.known a h))

cleared_roles :
    (agents : Map Text Agent) (r : Room) (m : Text)
    → GoodRoom agents r
    → is_some (lookup m (cleared_room agents r).roles) ≡ false
unfolding cleared_room
cleared_roles agents r m g =
    ground (arith, drop_roles-lookup agents r.members r.roles m, g.known m, g.held m)

pub cleared-GoodRoom :
    (agents : Map Text Agent) (r : Room) → GoodRoom agents r → GoodRoom [] (cleared_room agents r)
unfolding contains
cleared-GoodRoom agents r g =
    let none_left = cleared_members agents r g in
    record {
      distinct = rw none_left tt;
      known = λ m h. absurd (ground (arith, none_left));
      held = λ m h. absurd (ground (arith, cleared_roles agents r m g));
    }

-- A plain prune of a valid store leaves every room in place, with no member and no role in it, and
-- no agent or session registered.
pub clear_all-empty :
    (rid m : Text) (r : Room) (s : Store)
    → RoomsValid s
    → lookup rid s.rooms ≡ some r
    → let t = clear_all false s in
      (t.agents ≡ [])
      × (t.agent_sessions ≡ [])
      × ((q : Room) × (lookup rid t.rooms ≡ some q)
          × (q.members ≡ [])
          × (is_some (lookup m q.roles) ≡ false))
unfolding clear_all
clear_all-empty rid m r s v e = (
  refl,
  refl,
  (
    cleared_room s.agents r,
    ground (arith, lookup-map_values (λ _ x. cleared_room s.agents x) rid s.rooms),
    cleared_members s.agents r (v rid r e),
    cleared_roles s.agents r m (v rid r e),
  ),
)
