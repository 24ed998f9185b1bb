-- ===== src/Examples/Mentions.antt =====
-- Tests of the addressing, and each of its theorems at sample rooms.
use aimebu.Prelude.{
  lookup, contains, Distinct, Text, bytes, same, text_eq, has_byte, lower_byte, to_lower,
  equal_fold, nat_eq, ◌≡◌, refl, true, false, none, List, [], ◌∷◌,
}
use aimebu.Types.{Kind, ai, human}
use aimebu.Addressing.{
  RoomAgent, Context, group_of, room_agents_by_slug, add_name, target_of, in_group, add_group,
  add_matched, resolve_token, resolve_from, resolve_addressed_tokens, is_group, is_ambiguous,
  ambiguous_from, ambiguous_mention_tokens,
}
use aimebu.Addressing.Targets.{resolve_addressed_tokens-Distinct}
use aimebu.Addressing.Groups.{
  takes_in, called, group_mention_reaches, ambiguous_mention_tokens-unresolved,
}
use aimebu.Examples.{alice}

abbrev member : Text → Text → Kind → RoomAgent
member id name kind = record {
  id = id;
  name = name;
  kind = kind;
  last_seen = none;
  waiting = false;
}

-- alice writes; two AI agents share the slug bob.
abbrev bobs : Context
bobs = record {
  sender_id = alice;
  known_names = alice ∷ bytes "bob" ∷ [];
  role_names = [];
  room_agents =
      member alice alice human
      ∷ member (bytes "bob@x") (bytes "bob") ai
      ∷ member (bytes "bob@y") (bytes "bob") ai
      ∷ [];
  now = 0;
}

abbrev mentions : List Text
mentions = bytes "ais" ∷ bytes "bob" ∷ []

ais_test : resolve_addressed_tokens mentions bobs ≡ bytes "bob@x" ∷ bytes "bob@y" ∷ []
unfolding resolve_addressed_tokens resolve_from resolve_token group_of add_group target_of in_group
    equal_fold add_name add_matched room_agents_by_slug to_lower lower_byte same contains has_byte
ais_test = refl

resolve_addressed_tokens-Distinct_example : Distinct (resolve_addressed_tokens mentions bobs)
resolve_addressed_tokens-Distinct_example = resolve_addressed_tokens-Distinct mentions bobs

ais_mentioned : contains (bytes "ais") mentions ≡ true
unfolding contains same
ais_mentioned = refl

bob_is_other : equal_fold (bytes "bob@x") alice ≡ false
unfolding equal_fold to_lower lower_byte same
bob_is_other = refl

bob_taken : takes_in (bytes "ais") bobs.now (member (bytes "bob@x") (bytes "bob") ai) ≡ true
unfolding same
bob_taken = refl

group_mention_reaches_example :
    contains
      (to_lower (
        called
          (member alice alice human ∷ member (bytes "bob@y") (bytes "bob") ai ∷ [])
          (member (bytes "bob@x") (bytes "bob") ai)))
      (resolve_addressed_tokens mentions bobs)
    ≡ true
group_mention_reaches_example =
    group_mention_reaches mentions (bytes "ais") bobs (member alice alice human ∷ [])
      (member (bytes "bob@y") (bytes "bob") ai ∷ []) (member (bytes "bob@x") (bytes "bob") ai)
      ais_mentioned refl bob_is_other bob_taken

bob_ambiguous : contains (bytes "bob") (ambiguous_mention_tokens mentions bobs) ≡ true
unfolding contains ambiguous_mention_tokens ambiguous_from is_ambiguous group_of is_group
    room_agents_by_slug equal_fold to_lower lower_byte same has_byte lookup
bob_ambiguous = refl

ambiguous_mention_tokens-unresolved_example : resolve_token bobs (bytes "bob") [] ≡ []
ambiguous_mention_tokens-unresolved_example =
    ambiguous_mention_tokens-unresolved mentions [] (bytes "bob") bobs bob_ambiguous
