-- ===== src/Reactions/Rows.antt =====
-- Who reacted with what: adding and removing against the set of pairs they stand for.
use aimebu.Prelude.{
  select, any, insert, lookup-insert, lookup-delete, Text, same_iff, text_eq, if◌then◌else◌, ◌==◌,
  nat_eq, Bool-cases, ℕ, ◌≡◌, refl, subst, inl, inr, Bool, false, not, ◌&&◌, ◌||◌, List, [], ◌∷◌,
  ◌++◌, arith,
}
use aimebu.Types.{stamp, Reaction, Store}
use aimebu.Agents.{put_agent, touch_agent}
use aimebu.Reactions.{
  summarize_reactions, ok, ReactionSummary, remove_reaction, store_rows, add_reaction, put_rows,
  removed, added, is_reaction, rows_of,
}

-- Whether `agent` has reacted with `emoji` to the message.
abbrev pub reacted : Text → Text → ℕ → Store → Bool
reacted agent emoji id s = any (is_reaction agent emoji) (rows_of id s)

-- Each pair of an agent and an emoji stands once.
abbrev pub NoRepeat : List Reaction → Type 0
NoRepeat [] = Unit {0}
NoRepeat (r ∷ rs) = (any (is_reaction r.agent_id r.emoji) rs ≡ false) × NoRepeat rs

abbrev pub ReactionsValid : Store → Type 0
ReactionsValid s = (id : ℕ) → NoRepeat (rows_of id s)

any-snoc :
    (p : Reaction → Bool) (rs : List Reaction) (r : Reaction)
    → any p (rs ++ r ∷ []) ≡ (any p rs || p r)
any-snoc p [] r = ground arith
any-snoc p (q ∷ rs) r = ground (arith, any-snoc p rs r)

snoc-NoRepeat :
    (rs : List Reaction) (r : Reaction)
    → NoRepeat rs
    → any (is_reaction r.agent_id r.emoji) rs ≡ false
    → NoRepeat (rs ++ r ∷ [])
snoc-NoRepeat [] r n h = (refl, tt)
snoc-NoRepeat (q ∷ rs) r n h = ground (
  arith,
  any-snoc (is_reaction q.agent_id q.emoji) rs r,
  snoc-NoRepeat rs r n.1,
  same_iff q.agent_id r.agent_id,
  same_iff q.emoji r.emoji,
  same_iff r.agent_id q.agent_id,
  same_iff r.emoji q.emoji,
)

any-kept :
    (agent emoji a e : Text) (rs : List Reaction)
    → any (is_reaction a e) (select (λ r. not (is_reaction agent emoji r)) rs)
      ≡ (any (is_reaction a e) rs && not (agent == a && emoji == e))
any-kept agent emoji a e [] = ground arith
any-kept agent emoji a e (r ∷ rs) = ground (
  arith,
  any-kept agent emoji a e rs,
  same_iff agent a,
  same_iff emoji e,
  same_iff r.agent_id a,
  same_iff r.emoji e,
  same_iff r.agent_id agent,
  same_iff r.emoji emoji,
)

kept-NoRepeat :
    (agent emoji : Text) (rs : List Reaction)
    → NoRepeat rs
    → NoRepeat (select (λ r. not (is_reaction agent emoji r)) rs)
kept-NoRepeat agent emoji [] n = tt
kept-NoRepeat agent emoji (r ∷ rs) n =
    ground (arith, kept-NoRepeat agent emoji rs n.1, any-kept agent emoji r.agent_id r.emoji rs)

touch_agent-reactions :
    (agent : Text) (now : ℕ) (s : Store) → (touch_agent agent now s).reactions ≡ s.reactions
unfolding touch_agent put_agent
touch_agent-reactions agent now s = ground arith

kept_all :
    (agent emoji : Text) (rs : List Reaction)
    → any (is_reaction agent emoji) rs ≡ false
    → select (λ r. not (is_reaction agent emoji r)) rs ≡ rs
kept_all agent emoji [] h = refl
kept_all agent emoji (r ∷ rs) h = ground (arith, kept_all agent emoji rs)

abbrev row : Text → Text → ℕ → Reaction
row agent emoji now = record { agent_id = agent; emoji = emoji; created_at = stamp now }

-- The rows of every message after an addition, and after a removal.
rows_of-added :
    (id q : ℕ) (agent emoji : Text) (now : ℕ) (s : Store)
    → rows_of q (added id agent emoji now s).0 ≡ (
        if id == q && not (reacted agent emoji id s)
        then rows_of id s ++ row agent emoji now ∷ []
        else rows_of q s)
unfolding added put_rows
rows_of-added id q agent emoji now s =
    let rows = rows_of id s ++ row agent emoji now ∷ [] in
    ground (
      arith,
      touch_agent-reactions agent now (record s { reactions = insert id rows s.reactions }),
      lookup-insert id q rows s.reactions,
    )

rows_of-store_rows :
    (id q : ℕ) (rs : List Reaction) (s : Store)
    → rows_of q (store_rows id rs s) ≡ (if id == q then rs else rows_of q s)
unfolding store_rows put_rows
rows_of-store_rows id q [] s = ground (arith, lookup-delete id q s.reactions)
rows_of-store_rows id q (r ∷ rs) s = ground (arith, lookup-insert id q (r ∷ rs) s.reactions)

rows_of-removed :
    (id q : ℕ) (agent emoji : Text) (now : ℕ) (s : Store)
    → rows_of q (removed id agent emoji now s).0 ≡ (
        if id == q
        then select (λ r. not (is_reaction agent emoji r)) (rows_of id s)
        else rows_of q s)
unfolding removed
rows_of-removed id q agent emoji now s =
    let kept = select (λ r. not (is_reaction agent emoji r)) (rows_of id s) in
    elim (Bool-cases (reacted agent emoji id s)) [
      | inl gone ↦
          rw (gone, touch_agent-reactions agent now (store_rows id kept s))
            (rows_of-store_rows id q kept s)
      | inr stays ↦
          rw (stays, touch_agent-reactions agent now s)
            (ground (arith, kept_all agent emoji (rows_of id s) stays))
    ]

-- What a pass of the checks hands over.
add_reaction-ok :
    (id : ℕ) (agent emoji : Text) (now : ℕ) (s : Store)
    (o : Store × Text × List ReactionSummary × Bool)
    → add_reaction id agent emoji now s ≡ ok o
    → added id agent emoji now s ≡ (o.0, o.2, o.3)
unfolding add_reaction
add_reaction-ok id agent emoji now s o h = ground arith

remove_reaction-ok :
    (id : ℕ) (agent emoji : Text) (now : ℕ) (s : Store)
    (o : Store × Text × List ReactionSummary × Bool)
    → remove_reaction id agent emoji now s ≡ ok o
    → removed id agent emoji now s ≡ (o.0, o.2, o.3)
unfolding remove_reaction
remove_reaction-ok id agent emoji now s o h = ground arith

summary-added :
    (id : ℕ) (agent emoji : Text) (now : ℕ) (s : Store)
    → (added id agent emoji now s).1
      ≡ summarize_reactions
          (if reacted agent emoji id s
            then rows_of id s
            else rows_of id s ++ row agent emoji now ∷ [])
          agent
unfolding added
summary-added id agent emoji now s = ground arith

summary-removed :
    (id : ℕ) (agent emoji : Text) (now : ℕ) (s : Store)
    → (removed id agent emoji now s).1
      ≡ summarize_reactions (select (λ r. not (is_reaction agent emoji r)) (rows_of id s)) agent
unfolding removed
summary-removed id agent emoji now s = refl

abbrev Added :
    ℕ → ℕ → Text → Text → Text → Text → Store → Store × List ReactionSummary × Bool → Type 0
Added id q agent emoji a e s (t, summary, new) =
    (reacted a e q t ≡ (reacted a e q s || (id == q && (agent == a && emoji == e))))
    × (new ≡ not (reacted agent emoji id s))
    × (summary ≡ summarize_reactions (rows_of id t) agent)
    × NoRepeat (rows_of q t)

added-Added :
    (id q : ℕ) (agent emoji a e : Text) (now : ℕ) (s : Store)
    → ReactionsValid s
    → Added id q agent emoji a e s (added id agent emoji now s)
added-Added id q agent emoji a e now s v = (
  ground (
    arith,
    rows_of-added id q agent emoji now s,
    any-snoc (is_reaction a e) (rows_of id s) (row agent emoji now),
    same_iff agent a,
    same_iff emoji e,
  ),
  unfold added in ground arith,
  ground (arith, summary-added id agent emoji now s, rows_of-added id id agent emoji now s),
  ground (
    arith,
    rows_of-added id q agent emoji now s,
    v q,
    v id,
    snoc-NoRepeat (rows_of id s) (row agent emoji now) (v id),
  ),
)

abbrev Removed :
    ℕ → ℕ → Text → Text → Text → Text → Store → Store × List ReactionSummary × Bool → Type 0
Removed id q agent emoji a e s (t, summary, gone) =
    (reacted a e q t ≡ (reacted a e q s && not (id == q && (agent == a && emoji == e))))
    × (gone ≡ reacted agent emoji id s)
    × (summary ≡ summarize_reactions (rows_of id t) agent)
    × NoRepeat (rows_of q t)

removed-Removed :
    (id q : ℕ) (agent emoji a e : Text) (now : ℕ) (s : Store)
    → ReactionsValid s
    → Removed id q agent emoji a e s (removed id agent emoji now s)
removed-Removed id q agent emoji a e now s v = (
  ground (arith, rows_of-removed id q agent emoji now s, any-kept agent emoji a e (rows_of id s)),
  unfold removed in refl,
  ground (arith, summary-removed id agent emoji now s, rows_of-removed id id agent emoji now s),
  ground (
    arith,
    rows_of-removed id q agent emoji now s,
    v q,
    v id,
    kept-NoRepeat agent emoji (rows_of id s) (v id),
  ),
)

-- An addition that goes through makes the pair of the agent and the emoji one of the message's,
-- keeps every other pair of every message, says whether the pair is new, answers with the summary
-- of the rows then stored, and keeps pairs from standing twice.
pub reacted-add_reaction :
    (id q : ℕ) (agent emoji a e : Text) (now : ℕ) (s t : Store) (room : Text)
    (summary : List ReactionSummary) (new : Bool)
    → ReactionsValid s
    → add_reaction id agent emoji now s ≡ ok (t, room, summary, new)
    → (reacted a e q t ≡ (reacted a e q s || (id == q && (agent == a && emoji == e))))
      × (new ≡ not (reacted agent emoji id s))
      × (summary ≡ summarize_reactions (rows_of id t) agent)
      × NoRepeat (rows_of q t)
reacted-add_reaction id q agent emoji a e now s t room summary new v h =
    subst (Added id q agent emoji a e s)
      (add_reaction-ok id agent emoji now s (t, room, summary, new) h)
      (added-Added id q agent emoji a e now s v)

-- A removal that goes through takes the pair of the agent and the emoji from the message, keeps
-- every other pair of every message, says whether it was there, answers with the summary of the
-- rows then stored, and keeps pairs from standing twice.
pub reacted-remove_reaction :
    (id q : ℕ) (agent emoji a e : Text) (now : ℕ) (s t : Store) (room : Text)
    (summary : List ReactionSummary) (gone : Bool)
    → ReactionsValid s
    → remove_reaction id agent emoji now s ≡ ok (t, room, summary, gone)
    → (reacted a e q t ≡ (reacted a e q s && not (id == q && (agent == a && emoji == e))))
      × (gone ≡ reacted agent emoji id s)
      × (summary ≡ summarize_reactions (rows_of id t) agent)
      × NoRepeat (rows_of q t)
reacted-remove_reaction id q agent emoji a e now s t room summary gone v h =
    subst (Removed id q agent emoji a e s)
      (remove_reaction-ok id agent emoji now s (t, room, summary, gone) h)
      (removed-Removed id q agent emoji a e now s v)
