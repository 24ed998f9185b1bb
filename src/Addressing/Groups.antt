-- ===== src/Addressing/Groups.antt =====
-- Group mentions reach their group, and ambiguous mentions reach nobody.
use aimebu.Prelude.{
  length, select, any, contains, contains-snoc, Text, bytes, same_iff, text_eq, to_lower,
  equal_fold, ltb, if◌then◌else◌, ◌==◌, Bool-cases, nat_eq, ℕ, ◌+◌, ◌*◌, ◌≡◌, refl, sym, ap, subst,
  ◌∙◌, inl, inr, Bool, true, false, not, ◌&&◌, ◌||◌, none, some, List, [], ◌∷◌, ◌++◌, arith,
}
use aimebu.Types.{is_human, is_ai}
use aimebu.Addressing.{
  is_filled, RoomAgent, Context, Group, group_of, room_agents_by_slug, add_name, target_of,
  in_group, add_group, add_matched, resolve_token, resolve_from, resolve_addressed_tokens, is_group,
  is_ambiguous, ambiguous_from, ambiguous_mention_tokens,
}
use aimebu.Addressing.Targets.{contains-add_name, add_group-Extends, resolve_from-Extends}

add_group-taken :
    (c : Context) (g : Group) (later : List RoomAgent) (a : RoomAgent) (out : List Text)
    → equal_fold a.id c.sender_id ≡ false
    → in_group c g a ≡ true
    → add_group c g (a ∷ later) out ≡ add_group c g later (add_name (target_of c a) out)
unfolding add_group
add_group-taken c g later a out other taken = ground arith

add_name-in : (n : Text) (out : List Text) → contains (to_lower n) (add_name n out) ≡ true
add_name-in n out =
    ground (arith, contains-add_name (to_lower n) n out, same_iff (to_lower n) (to_lower n))

add_group-reaches :
    (c : Context) (g : Group) (before later : List RoomAgent) (a : RoomAgent) (out : List Text)
    → equal_fold a.id c.sender_id ≡ false
    → in_group c g a ≡ true
    → contains (to_lower (target_of c a)) (add_group c g (before ++ a ∷ later) out) ≡ true
unfolding add_group
add_group-reaches c g [] later a out other taken =
    let next = add_name (target_of c a) out in
    subst (λ xs. contains (to_lower (target_of c a)) xs ≡ true)
      (sym (add_group-taken c g later a out other taken))
      ((add_group-Extends c g later next).kept (to_lower (target_of c a))
        (add_name-in (target_of c a) out))
add_group-reaches c g (b ∷ before) later a out other taken =
    add_group-reaches c g before later a
      (if not (equal_fold b.id c.sender_id) && in_group c g b
        then add_name (target_of c b) out
        else out)
      other taken

resolve_token-group :
    (c : Context) (token : Text) (a : RoomAgent) (out : List Text)
    → in_group c (group_of token) a ≡ true
    → resolve_token c token out ≡ add_group c (group_of token) c.room_agents out
unfolding resolve_token in_group
resolve_token-group c token a out taken = ground arith

resolve_from-reaches :
    (c : Context) (token x : Text) (raw out : List Text)
    → ((o : List Text) → contains x (resolve_token c token o) ≡ true)
    → contains token raw ≡ true
    → contains x (resolve_from c raw out) ≡ true
unfolding resolve_from contains
resolve_from-reaches c token x [] out reach h = absurd (ground arith)
resolve_from-reaches c token x (t ∷ ts) out reach h = elim (Bool-cases (t == token)) [
  | inl hit ↦ (resolve_from-Extends c ts (resolve_token c t out)).kept x (
      subst (λ u. contains x (resolve_token c u out) ≡ true) (sym ((same_iff t token).0 hit))
        (reach out))
  | inr miss ↦ resolve_from-reaches c token x ts (resolve_token c t out) reach (ground arith)
]

group_reaches :
    (raw : List Text) (token : Text) (c : Context) (before later : List RoomAgent) (a : RoomAgent)
    → contains token raw ≡ true
    → c.room_agents ≡ before ++ a ∷ later
    → equal_fold a.id c.sender_id ≡ false
    → in_group c (group_of token) a ≡ true
    → contains (to_lower (target_of c a)) (resolve_addressed_tokens raw c) ≡ true
unfolding resolve_addressed_tokens
group_reaches raw token c before later a h members other taken =
    resolve_from-reaches c token (to_lower (target_of c a)) raw [] reach h
  where
    reach : (o : List Text) → contains (to_lower (target_of c a)) (resolve_token c token o) ≡ true
    reach o =
        subst (λ xs. contains (to_lower (target_of c a)) xs ≡ true)
          (sym (resolve_token-group c token a o taken))
          (subst
            (λ ms. contains (to_lower (target_of c a)) (add_group c (group_of token) ms o) ≡ true)
            (sym members) (add_group-reaches c (group_of token) before later a o other taken))

-- Seen within the last five minutes, or waiting now.
abbrev pub is_here : ℕ → RoomAgent → Bool
is_here now a =
    a.waiting || elim a.last_seen [ none ↦ false | some t ↦ ltb now (t + 300 * 1_000_000_000) ]

-- Whom the mention of a word takes in: all, the humans, the AI agents, or those here.
abbrev pub takes_in : Text → ℕ → RoomAgent → Bool
takes_in token now a =
    token == bytes "channel"
    || (token == bytes "everyone"
        || (token == bytes "all"
            || ((token == bytes "humans" && is_human a.kind)
                || ((token == bytes "ais" && is_ai a.kind)
                    || (token == bytes "here" && is_here now a)))))

-- The name of a member, or its ID if another one has the same name.
abbrev pub called : List RoomAgent → RoomAgent → Text
called others a = if any (λ b. to_lower b.name == to_lower a.name) others then a.id else a.name

takes_in-in_group :
    (c : Context) (token : Text) (a : RoomAgent)
    → takes_in token c.now a ≡ true
    → in_group c (group_of token) a ≡ true
unfolding in_group group_of
takes_in-in_group c token a h = ground (
  arith,
  same_iff token (bytes "channel"),
  same_iff token (bytes "everyone"),
  same_iff token (bytes "all"),
  same_iff token (bytes "humans"),
  same_iff token (bytes "ais"),
  same_iff token (bytes "here"),
)

count_any : (p : RoomAgent → Bool) (xs : List RoomAgent) → ltb 0 (length (select p xs)) ≡ any p xs
count_any p [] = refl
count_any p (x ∷ xs) = ground (arith, count_any p xs)

count_around :
    (p : RoomAgent → Bool) (before later : List RoomAgent) (a : RoomAgent)
    → p a ≡ true
    → length (select p (before ++ a ∷ later)) ≡ 1 + length (select p (before ++ later))
count_around p [] later a h = rw h (omega arith)
count_around p (b ∷ before) later a h = ground (arith, count_around p before later a h)

target_of-called :
    (c : Context) (before later : List RoomAgent) (a : RoomAgent)
    → c.room_agents ≡ before ++ a ∷ later
    → target_of c a ≡ called (before ++ later) a
unfolding target_of
target_of-called c before later a members =
    let p = λ (b : RoomAgent). to_lower b.name == to_lower a.name in
    let own : p a ≡ true = (same_iff (to_lower a.name) (to_lower a.name)).1 refl in
    let several : ltb 1 (length (select p c.room_agents)) ≡ any p (before ++ later) =
      ap (λ ms. ltb 1 (length (select p ms))) members
      ∙ (ap (λ n. ltb 1 n) (count_around p before later a own)
          ∙ (ground arith ∙ count_any p (before ++ later))) in
    ap (λ b. if b then a.id else a.name) several

-- A message that mentions "channel", "everyone" or "all", "humans", "ais" or "here" is addressed
-- to every member of the room but its sender, to every human, to every AI agent, or to everyone
-- who waits or was seen in the last five minutes: by its name, or by its ID where another member
-- has that name.
pub group_mention_reaches :
    (raw : List Text) (token : Text) (c : Context) (before later : List RoomAgent) (a : RoomAgent)
    → contains token raw ≡ true
    → c.room_agents ≡ before ++ a ∷ later
    → equal_fold a.id c.sender_id ≡ false
    → takes_in token c.now a ≡ true
    → contains (to_lower (called (before ++ later) a)) (resolve_addressed_tokens raw c) ≡ true
group_mention_reaches raw token c before later a h members other taken =
    subst (λ n. contains (to_lower n) (resolve_addressed_tokens raw c) ≡ true)
      (target_of-called c before later a members)
      (group_reaches raw token c before later a h members other (takes_in-in_group c token a taken))

ambiguous_from-inv :
    (c : Context) (token : Text) (raw out : List Text)
    → contains token (ambiguous_from c raw out) ≡ true
    → (contains token out || is_ambiguous c token) ≡ true
unfolding ambiguous_from
ambiguous_from-inv c token [] out h = ground arith
ambiguous_from-inv c token (t ∷ ts) out h =
    let b = is_ambiguous c t && not (contains t out) in
    let next = if b then out ++ t ∷ [] else out in
    elim (Bool-cases (t == token)) [
      | inl hit ↦ ground (
        arith,
        ambiguous_from-inv c token ts next h,
        contains-snoc token t out,
        (same_iff t token).0 hit,
      )
      | inr miss ↦ ground (arith, ambiguous_from-inv c token ts next h, contains-snoc token t out)
    ]

add_matched-several :
    (c : Context) (token : Text) (matches : List RoomAgent) (out : List Text)
    → ltb 1 (length matches) ≡ true
    → add_matched c token matches out ≡ out
unfolding add_matched
add_matched-several c token [] out h = absurd (ground arith)
add_matched-several c token (a ∷ []) out h = absurd (ground arith)
add_matched-several c token (a ∷ b ∷ others) out h = refl

-- A mention that the sender is warned about as ambiguous addresses nobody.
pub ambiguous_mention_tokens-unresolved :
    (raw out : List Text) (token : Text) (c : Context)
    → contains token (ambiguous_mention_tokens raw c) ≡ true
    → resolve_token c token out ≡ out
unfolding ambiguous_mention_tokens contains
ambiguous_mention_tokens-unresolved raw out token c h =
    elim (Bool-cases (is_filled c.room_agents)) [
      | inl members ↦ several (ground (arith, ambiguous_from-inv c token raw []))
      | inr empty ↦ absurd (ground arith)
    ]
  where
    several : is_ambiguous c token ≡ true → resolve_token c token out ≡ out
    several v =
        unfold is_ambiguous resolve_token is_group in
        ground (arith, add_matched-several c token (room_agents_by_slug c.room_agents token) out)
