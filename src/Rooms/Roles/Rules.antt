-- ===== src/Rooms/Roles/Rules.antt =====
-- What assignRole keeps: roles are held by members, and a singleton role by one agent.
use aimebu.Prelude.{
  Map, is_some, or_zero, lookup, insert, delete, lookup-insert, lookup-delete, lookup-select,
  contains, Text, bytes, same_iff, text_eq, ◌==◌, nat_eq, Bool-cases, Option-cases, ℕ, ◌≡◌, ◌≢◌,
  inl, inr, Bool, true, false, not, ◌&&◌, some, [], ◌∷◌, ◌++◌, arith,
}
use aimebu.Types.{Room, Agent, Store, ok, after}
use aimebu.Rooms.{put_room}
use aimebu.Rooms.Valid.{GoodRoom, RoomsValid, emit-rooms, put_room-RoomsValid, emit-RoomsValid}
use aimebu.Rooms.Roles.{
  held_by_other, assign_role, get_role_cardinality, agent_short_name, drop_key, store_roles, told,
  assign_to, clear_of,
}

with_roles-GoodRoom :
    (agents : Map Text Agent) (r : Room) (roles : Map Text Text)
    → GoodRoom agents r
    → ((m : Text) → is_some (lookup m roles) ≡ true → contains m r.members ≡ true)
    → GoodRoom agents (record r { roles = roles })
with_roles-GoodRoom agents r roles g held = record {
  distinct = g.distinct;
  known = g.known;
  held = held;
}

store_roles-RoomsValid :
    (id : Text) (r : Room) (roles : Map Text Text) (s : Store)
    → GoodRoom s.agents (record r { roles = roles })
    → RoomsValid s
    → RoomsValid (store_roles id r roles s)
unfolding store_roles
store_roles-RoomsValid id r roles s g v = put_room-RoomsValid id (record r { roles = roles }) s g v

told-RoomsValid :
    (id agent what : Text) (now : ℕ) (s : Store)
    → RoomsValid s
    → RoomsValid (told id agent what now s)
unfolding told
told-RoomsValid id agent what now s v = emit-RoomsValid id (agent ++ what) _ false now s v

assign_to_cases :
    (P : Store → Type 0) (id agent key : Text) (one : Bool) (now : ℕ) (r : Room) (s : Store)
    → P s
    → P (
        told id agent
          (bytes " was assigned as " ++ key)
          now
          (store_roles id r (insert agent key r.roles) s))
    → P (after s (assign_to id agent key one now r s))
unfolding assign_to
assign_to_cases P id agent key one now r s stays assigned = ground arith

clear_of_cases :
    (P : Store → Type 0) (id agent : Text) (now : ℕ) (r : Room) (s : Store)
    → P s
    → P (told id agent (bytes " role cleared") now (store_roles id r (delete agent r.roles) s))
    → P (after s (clear_of id agent now r s))
unfolding clear_of
clear_of_cases P id agent now r s stays cleared = ground arith

assign_role_cases :
    (P : Store → Type 0) (id agent key : Text) (now : ℕ) (s : Store)
    → P s
    → ((r : Room) → lookup id s.rooms ≡ some r → P (store_roles id r (drop_key key r.roles) s))
    → ((r : Room) → lookup id s.rooms ≡ some r → P (after s (clear_of id agent now r s)))
    → ((r : Room) (one : Bool)
        → lookup id s.rooms ≡ some r
        → contains agent r.members ≡ true
        → P (after s (assign_to id agent key one now r s)))
    → P (after s (assign_role id agent key now s))
unfolding assign_role
assign_role_cases P id agent key now s stays dropped cleared assigned =
    elim (Option-cases (lookup id s.rooms)) [
      | inl e ↦ ground arith
      | inr (r, e) ↦
          let one = not (key == []) && get_role_cardinality key s == bytes "singleton" in
          ground (arith, dropped r e, cleared r e, assigned r one e)
    ]

pub assign_role-RoomsValid :
    (id agent key : Text) (now : ℕ) (s : Store)
    → RoomsValid s
    → RoomsValid (after s (assign_role id agent key now s))
assign_role-RoomsValid id agent key now s v =
    assign_role_cases RoomsValid id agent key now s v
      (λ r e.
        store_roles-RoomsValid id r (drop_key key r.roles) s
          (with_roles-GoodRoom s.agents r (drop_key key r.roles) (v id r e)
            (λ m h. (v id r e).held m (lookup-select (λ x. not (x.1 == key)) m r.roles h)))
          v)
      (λ r e. clear_of_cases RoomsValid id agent now r s v (
        told-RoomsValid id agent (bytes " role cleared") now _ (
          store_roles-RoomsValid id r (delete agent r.roles) s
            (with_roles-GoodRoom s.agents r (delete agent r.roles) (v id r e)
              (λ m h. (v id r e).held m (ground (arith, lookup-delete agent m r.roles))))
            v)))
      (λ r one e here. assign_to_cases RoomsValid id agent key one now r s v (
        told-RoomsValid id agent (bytes " was assigned as " ++ key) now _ (
          store_roles-RoomsValid id r (insert agent key r.roles) s
            (with_roles-GoodRoom s.agents r (insert agent key r.roles) (v id r e) (λ m h.
              ground
                (arith, lookup-insert agent m key r.roles, same_iff agent m, (v id r e).held m)))
            v)))

held_by_other-insert :
    (agent key : Text) (roles : Map Text Text)
    → held_by_other agent key (insert agent key roles) ≡ held_by_other agent key roles
unfolding held_by_other insert
held_by_other-insert agent key [] = ground (arith, same_iff agent agent)
held_by_other-insert agent key ((j, k) ∷ rest) =
    ground (arith, same_iff j agent, same_iff agent agent, held_by_other-insert agent key rest)

told-store_roles :
    (id agent what : Text) (now : ℕ) (r : Room) (roles : Map Text Text) (s : Store)
    → lookup id (told id agent what now (store_roles id r roles s)).rooms
      ≡ some (record r { roles = roles })
unfolding told store_roles put_room
told-store_roles id agent what now r roles s =
    let stored = store_roles id r roles s in
    ground (
      arith,
      emit-rooms id (agent ++ what) (some (agent_short_name agent ∷ [])) false now stored,
      lookup-insert id id (record r { roles = roles }) s.rooms,
      same_iff id id,
    )

-- An assignment of a singleton role that succeeds leaves the agent as the role's only holder.
pub assign_role_singleton :
    (id agent key : Text) (now : ℕ) (s t : Store)
    → agent ≢ []
    → key ≢ []
    → get_role_cardinality key s ≡ bytes "singleton"
    → assign_role id agent key now s ≡ ok t
    → (r : Room) × (lookup id t.rooms ≡ some r)
      × (lookup agent r.roles ≡ some key)
      × (held_by_other agent key r.roles ≡ false)
unfolding assign_role assign_to
assign_role_singleton id agent key now s t a k one h = elim (Option-cases (lookup id s.rooms)) [
  | inl e ↦ absurd (ground arith)
  | inr (r, e) ↦ elim (Bool-cases (or_zero (lookup agent r.roles) [] == key)) [
    | inl held ↦ (
      r,
      ground (arith, same_iff agent [], same_iff key []),
      ground (arith, same_iff (or_zero (lookup agent r.roles) []) key),
      ground (
        arith,
        same_iff agent [],
        same_iff key [],
        same_iff (bytes "singleton") (bytes "singleton"),
      ),
    )
    | inr fresh ↦ (
      record r { roles = insert agent key r.roles },
      ground (
        arith,
        same_iff agent [],
        same_iff key [],
        told-store_roles id agent (bytes " was assigned as " ++ key) now r
            (insert agent key r.roles) s,
      ),
      ground (arith, lookup-insert agent agent key r.roles, same_iff agent agent),
      ground (
        arith,
        same_iff agent [],
        same_iff key [],
        same_iff (bytes "singleton") (bytes "singleton"),
        held_by_other-insert agent key r.roles,
      ),
    )
  ]
]
