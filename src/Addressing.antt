-- ===== src/Addressing.antt =====
-- Whom a message is addressed to: internal/server/addressing.go from the mention tokens on, and
-- addressingContext of store_agents.go.
pub mod Targets
pub mod Groups
use aimebu.Prelude.{
  length, select, Map, or_zero, lookup, insert, contains, Text, bytes, same, text_eq, has_byte,
  to_lower, equal_fold, ltb, if◌then◌else◌, ◌==◌, nat_eq, ℕ, ◌+◌, ◌*◌, Bool, true, false, not, ◌&&◌,
  ◌||◌, none, some, List, [], ◌∷◌, ◌++◌,
}
use aimebu.Types.{Stamp, second, Kind, is_ai, is_human, Agent, Store}
use aimebu.Agents.Waits.{is_filled, is_waiting}
use aimebu.Agents.Names.{is_reserved_agent_name}
use aimebu.Rooms.Roles.{agent_short_name}

-- roomAgentContext
pub record RoomAgent : Type 0 where
  pub id : Text
  pub name : Text
  pub kind : Kind
  pub last_seen : Stamp
  pub waiting : Bool

-- addressingContext; a set is a list.
pub record Context : Type 0 where
  pub sender_id : Text
  pub known_names : List Text
  pub role_names : Map Text (List Text)
  pub room_agents : List RoomAgent
  pub now : ℕ

names_of : Map Text Agent → List Text
unfolding to_lower
names_of [] = []
names_of ((id, a) ∷ rest) = to_lower a.name ∷ names_of rest

-- The members that are registered.
members_of : Text → Store → List Text → List RoomAgent
unfolding is_waiting
members_of room s [] = []
members_of room s (m ∷ ms) = elim (lookup m s.agents) [
  | none ↦ members_of room s ms
  | some a ↦
      record {
        id = a.id;
        name = a.name;
        kind = a.kind;
        last_seen = a.last_seen;
        waiting = is_waiting a.id room s;
      }
      ∷ members_of room s ms
]

-- An AI member's name under its role, if the role's key is no reserved name.
add_role : Text → Agent → Map Text (List Text) → Map Text (List Text)
unfolding to_lower is_reserved_agent_name
add_role role a names =
    let key = to_lower role in
    if is_ai a.kind && not (key == []) && not (is_reserved_agent_name key)
    then insert key (or_zero (lookup key names) [] ++ to_lower a.name ∷ []) names
    else names

roles_of : Map Text Text → Store → List Text → Map Text (List Text) → Map Text (List Text)
unfolding add_role
roles_of roles s [] names = names
roles_of roles s (m ∷ ms) names = roles_of roles s ms (elim (lookup m s.agents) [
  | none ↦ names
  | some a ↦ add_role (or_zero (lookup m roles) []) a names
])

unfoldable pub addressing_context : Text → Text → ℕ → Store → Context
unfolding names_of members_of roles_of
addressing_context room from now s =
    let members : List Text = elim (lookup room s.rooms) [ none ↦ [] | some r ↦ r.members ] in
    let roles : Map Text Text = elim (lookup room s.rooms) [ none ↦ [] | some r ↦ r.roles ] in
    record {
      sender_id = from;
      known_names = names_of s.agents;
      role_names = roles_of roles s members [];
      room_agents = members_of room s members;
      now = now;
    }

-- groupMentionKinds
pub data Group : Type 0 where
  no_group everyone humans ais here : Group

unfoldable pub group_of : Text → Group
unfolding same
group_of t =
    if t == bytes "channel" || t == bytes "everyone" || t == bytes "all"
    then everyone
    else if t == bytes "humans"
    then humans
    else if t == bytes "ais"
    then ais
    else if t == bytes "here"
    then here
    else no_group

-- roomAgentsBySlug
unfoldable pub room_agents_by_slug : List RoomAgent → Text → List RoomAgent
unfolding equal_fold
room_agents_by_slug agents slug = select (λ a. equal_fold a.name slug) agents

-- The closure `add`.
unfoldable pub add_name : Text → List Text → List Text
unfolding to_lower
add_name name out = let n = to_lower name in if contains n out then out else out ++ n ∷ []

-- The closure `addAgent`: an agent that shares its slug goes by its ID.
unfoldable pub target_of : Context → RoomAgent → Text
unfolding to_lower
target_of c a =
    if ltb 1 (length (select (λ b. to_lower b.name == to_lower a.name) c.room_agents))
    then a.id
    else a.name

-- hereRecentWindow
abbrev here_recent_window : ℕ
here_recent_window = 300 * second

-- Whether a group takes an agent in, who is not the sender.
unfoldable pub in_group : Context → Group → RoomAgent → Bool
in_group c no_group a = false
in_group c everyone a = true
in_group c humans a = is_human a.kind
in_group c ais a = is_ai a.kind
in_group c here a =
    a.waiting || elim a.last_seen [ none ↦ false | some t ↦ ltb c.now (t + here_recent_window) ]

unfoldable pub add_group : Context → Group → List RoomAgent → List Text → List Text
unfolding target_of in_group equal_fold add_name
add_group c g [] out = out
add_group c g (a ∷ others) out = add_group c g others (
    if not (equal_fold a.id c.sender_id) && in_group c g a
    then add_name (target_of c a) out
    else out)

add_by_id : Text → List RoomAgent → List Text → List Text
unfolding equal_fold add_name
add_by_id token [] out = out
add_by_id token (a ∷ others) out =
    let rest = add_by_id token others out in
    if equal_fold a.id token then add_name a.id out else rest

-- The names of a role's holders but the sender's.
add_role_names : Text → List Text → List Text → List Text
unfolding equal_fold add_name
add_role_names sender [] out = out
add_role_names sender (n ∷ ns) out =
    add_role_names sender ns (if equal_fold n sender then out else add_name n out)

-- A token that no member's slug is: a known name, or a role.
add_unmatched : Context → Text → List Text → List Text
unfolding add_role_names agent_short_name add_name to_lower
add_unmatched c token out =
    if not (is_filled c.known_names) || contains token c.known_names
    then add_name token out
    else add_role_names (to_lower (agent_short_name c.sender_id))
        (or_zero (lookup token c.role_names) []) out

unfoldable pub add_matched : Context → Text → List RoomAgent → List Text → List Text
unfolding add_unmatched add_name
add_matched c token [] out = add_unmatched c token out
add_matched c token (a ∷ []) out = add_name a.name out
add_matched c token (a ∷ b ∷ others) out = out

unfoldable pub resolve_token : Context → Text → List Text → List Text
unfolding group_of add_group add_by_id add_matched room_agents_by_slug
resolve_token c token out = elim (group_of token) [
  | no_group ↦
      if has_byte b'@' token
      then add_by_id token c.room_agents out
      else add_matched c token (room_agents_by_slug c.room_agents token) out
  | g ↦ add_group c g c.room_agents out
]

unfoldable pub resolve_from : Context → List Text → List Text → List Text
unfolding resolve_token
resolve_from c [] out = out
resolve_from c (t ∷ ts) out = resolve_from c ts (resolve_token c t out)

-- resolveAddressedTokens
unfoldable pub resolve_addressed_tokens : List Text → Context → List Text
unfolding resolve_from
resolve_addressed_tokens raw c = resolve_from c raw []

unfoldable pub is_group : Group → Bool
is_group no_group = false
is_group _ = true

-- A slug of several members that is no role.
unfoldable pub is_ambiguous : Context → Text → Bool
unfolding group_of is_group room_agents_by_slug
is_ambiguous c token =
    not (has_byte b'@' token || is_group (group_of token))
    && not (is_filled (or_zero (lookup token c.role_names) []))
    && ltb 1 (length (room_agents_by_slug c.room_agents token))

unfoldable pub ambiguous_from : Context → List Text → List Text → List Text
unfolding is_ambiguous
ambiguous_from c [] out = out
ambiguous_from c (t ∷ ts) out =
    ambiguous_from c ts (if is_ambiguous c t && not (contains t out) then out ++ t ∷ [] else out)

unfoldable pub ambiguous_mention_tokens : List Text → Context → List Text
unfolding ambiguous_from
ambiguous_mention_tokens raw c = if is_filled c.room_agents then ambiguous_from c raw [] else []

unfoldable pub addressed_matches_agent : Text → Text → Bool
unfolding equal_fold has_byte agent_short_name
addressed_matches_agent target agent =
    equal_fold target agent
    || (not (has_byte b'@' target) && equal_fold target (agent_short_name agent))
