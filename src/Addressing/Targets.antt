-- ===== src/Addressing/Targets.antt =====
-- What the resolution of mentions promises.
use aimebu.Prelude.{
  or_zero, lookup, contains, Distinct, contains-snoc, snoc-Distinct, Text, same_iff, text_eq,
  has_byte, to_lower, equal_fold, if◌then◌else◌, ◌==◌, Bool-cases, nat_eq, ◌≡◌, inl, inr, Bool,
  true, false, not, ◌&&◌, ◌||◌, List, [], ◌∷◌, arith,
}
use aimebu.Rooms.Roles.{agent_short_name}
use aimebu.Addressing.{
  is_filled, add_unmatched, add_role_names, add_matched, resolve_from, add_by_id, RoomAgent,
  Context, Group, no_group, everyone, humans, ais, here, group_of, room_agents_by_slug, add_name,
  target_of, in_group, add_group, resolve_token, resolve_addressed_tokens,
}

add_name-Distinct : (n : Text) (out : List Text) → Distinct out → Distinct (add_name n out)
unfolding add_name
add_name-Distinct n out d = elim (Bool-cases (contains (to_lower n) out)) [
  | inl old ↦ rw old d
  | inr new ↦ rw new (snoc-Distinct (to_lower n) out d new)
]

-- A name that is in stays in.
pub contains-add_name :
    (x n : Text) (out : List Text)
    → contains x (add_name n out) ≡ (contains x out || to_lower n == x)
unfolding add_name
contains-add_name x n out =
    ground (arith, contains-snoc x (to_lower n) out, same_iff (to_lower n) x)

-- What each helper keeps of the list that it extends.
pub record Extends (out out' : List Text) : Type 0 where
  pub distinct : Distinct out → Distinct out'
  pub kept : (x : Text) → contains x out ≡ true → contains x out' ≡ true

Extends-refl : (out : List Text) → Extends out out
Extends-refl out = record { distinct = λ d. d; kept = λ x h. h }

Extends-trans : {a b c : List Text} → Extends a b → Extends b c → Extends a c
Extends-trans p q = record {
  distinct = λ d. q.distinct (p.distinct d);
  kept = λ x h. q.kept x (p.kept x h);
}

add_name-Extends : (n : Text) (out : List Text) → Extends out (add_name n out)
add_name-Extends n out = record {
  distinct = add_name-Distinct n out;
  kept = λ x h. ground (arith, contains-add_name x n out);
}

add_if-Extends :
    (b : Bool) (n : Text) (out : List Text) → Extends out (if b then add_name n out else out)
add_if-Extends true n out = add_name-Extends n out
add_if-Extends false n out = Extends-refl out

pub add_group-Extends :
    (c : Context) (g : Group) (agents : List RoomAgent) (out : List Text)
    → Extends out (add_group c g agents out)
unfolding add_group
add_group-Extends c g [] out = Extends-refl out
add_group-Extends c g (a ∷ others) out =
    let b = not (equal_fold a.id c.sender_id) && in_group c g a in
    let next = if b then add_name (target_of c a) out else out in
    Extends-trans (add_if-Extends b (target_of c a) out) (add_group-Extends c g others next)

add_by_id-Extends :
    (token : Text) (agents : List RoomAgent) (out : List Text)
    → Extends out (add_by_id token agents out)
unfolding add_by_id
add_by_id-Extends token [] out = Extends-refl out
add_by_id-Extends token (a ∷ others) out = elim (Bool-cases (equal_fold a.id token)) [
  | inl hit ↦ rw hit (add_name-Extends a.id out)
  | inr miss ↦ rw miss (add_by_id-Extends token others out)
]

add_role_names-Extends :
    (sender : Text) (ns out : List Text) → Extends out (add_role_names sender ns out)
unfolding add_role_names
add_role_names-Extends sender [] out = Extends-refl out
add_role_names-Extends sender (n ∷ ns) out = elim (Bool-cases (equal_fold n sender)) [
  | inl own ↦ rw own (add_role_names-Extends sender ns out)
  | inr other ↦
      rw other
        (Extends-trans (add_name-Extends n out) (add_role_names-Extends sender ns (add_name n out)))
]

add_matched-Extends :
    (c : Context) (token : Text) (matches : List RoomAgent) (out : List Text)
    → Extends out (add_matched c token matches out)
unfolding add_matched add_unmatched
add_matched-Extends c token [] out =
    elim (Bool-cases (not (is_filled c.known_names) || contains token c.known_names)) [
      | inl known ↦ rw known (add_name-Extends token out)
      | inr unknown ↦ rw unknown (
          add_role_names-Extends (to_lower (agent_short_name c.sender_id))
            (or_zero (lookup token c.role_names) []) out)
    ]
add_matched-Extends c token (a ∷ []) out = add_name-Extends a.name out
add_matched-Extends c token (a ∷ b ∷ others) out = Extends-refl out

pub resolve_token-Extends :
    (c : Context) (token : Text) (out : List Text) → Extends out (resolve_token c token out)
unfolding resolve_token
resolve_token-Extends c token out = by_group (group_of token)
  where
    by_group :
        (g : Group)
        → Extends out (elim g [
          | no_group ↦
              if has_byte b'@' token
              then add_by_id token c.room_agents out
              else add_matched c token (room_agents_by_slug c.room_agents token) out
          | q ↦ add_group c q c.room_agents out
        ])
    by_group no_group = elim (Bool-cases (has_byte b'@' token)) [
      | inl full ↦ rw full (add_by_id-Extends token c.room_agents out)
      | inr slug ↦
          rw slug (add_matched-Extends c token (room_agents_by_slug c.room_agents token) out)
    ]
    by_group everyone = add_group-Extends c everyone c.room_agents out
    by_group humans = add_group-Extends c humans c.room_agents out
    by_group ais = add_group-Extends c ais c.room_agents out
    by_group here = add_group-Extends c here c.room_agents out

pub resolve_from-Extends :
    (c : Context) (raw out : List Text) → Extends out (resolve_from c raw out)
unfolding resolve_from
resolve_from-Extends c [] out = Extends-refl out
resolve_from-Extends c (t ∷ ts) out =
    Extends-trans (resolve_token-Extends c t out)
      (resolve_from-Extends c ts (resolve_token c t out))

-- No target is named twice, whatever the mentions and the room.
pub resolve_addressed_tokens-Distinct :
    (raw : List Text) (c : Context) → Distinct (resolve_addressed_tokens raw c)
unfolding resolve_addressed_tokens
resolve_addressed_tokens-Distinct raw c = (resolve_from-Extends c raw []).distinct tt
