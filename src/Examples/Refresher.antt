-- ===== src/Examples/Refresher.antt =====
-- A profile is refreshed twice: the token of the first run is never launched again.
use aimebu.Usages.Refresher.Gap.{refresh_profile-gap}
use aimebu.Usages.Refresher.Gate.{Among, Calm}
use aimebu.Usages.Refresher.Settled.{is_not_sent}
use aimebu.Prelude.{
  Map, lookup, insert, delete, contains, Text, bytes, same, same_iff, text_eq, ◌==◌, Bool-cases,
  nat_eq, ℕ, ◌*◌, ◌≡◌, refl, sym, ap, subst, inl, inr, true, false, not, none, some, [], ◌∷◌, arith,
}
use aimebu.Usages.StateStore.{mutate, JournalEntry, claude, key_of}
use aimebu.Usages.Rotation.{minute}
use aimebu.Usages.World.{Format, Profile, World, Settings, never, Run, zero_attempt}
use aimebu.Usages.Commits.{committed, reached, unfinished, commit_rotated}
use aimebu.Usages.Refresher.{outcome_of, refresh_profile}
use aimebu.Usages.Refresher.Commit.{Fresh, token_is, Identifies}
use aimebu.Usages.Refresher.Once.{do_call, do_calls, Call, refreshing, AllRely, Relies, spend_once}

-- A login is its own token, and always due.
abbrev plain : Format
plain = record {
  token_hash = λ tool text. some text;
  access_token = λ tool text. text;
  advanced = λ tool old new. not (old == new);
  valid_rotated = λ tool text. not (text == []);
  expires = λ tool text. some 0;
}

plain-Identifies : Identifies plain
plain-Identifies tool x y h same_access = ap some ((same_iff x y).0 same_access)

abbrev work : Text → Profile
work login = record {
  tool = claude;
  name = bytes "work";
  active = true;
  has_credentials = true;
  linked = false;
  file = some login;
  switched_away_at = none;
}

abbrev run_to : Text → ℕ → Run
run_to login now = record {
  now = now;
  lock_free = true;
  available = true;
  reachable = true;
  temp_dir = some (bytes "/tmp/a");
  rescue = some (bytes "/rescue");
  cli = record {
    client_started = true;
    started = true;
    failed = false;
    emptied = false;
    says_rejected = false;
    says_unsent = false;
    left = login;
    consumed = true;
  };
  saves = record {
    on_spend = true;
    on_start = true;
    on_rotate = true;
    on_verdict = true;
    on_clear = true;
  };
  commits = λ name. true;
  crash = never;
}

abbrev settings : Settings
settings = record {
  tool_on = λ tool. true;
  pending_login = λ tool. false;
  migrated_at = λ tool. none;
  lead = λ tool. 0;
}

abbrev one : Text
one = bytes "one"

abbrev two : Text
two = bytes "two"

abbrev three : Text
three = bytes "three"

abbrev quiet : World
quiet = record {
  profiles = work one ∷ [];
  store = record { disk = record { journal = []; accounts = [] }; unsaved = [] };
  attempts = [];
  pending = [];
  files = [];
  last = [];
  fanned_out = [];
  launched = [];
  spent = [];
  respent = false;
}

abbrev first_call : Call
first_call = refreshing true (work one) (run_to two 5)

abbrev second_call : Call
second_call = refreshing true (work two) (run_to three (40 * minute))

abbrev after_first : World
after_first = record quiet {
  profiles = work two ∷ [];
  attempts = (key_of claude one, zero_attempt) ∷ [];
  last = (key_of claude (bytes "work"), record { at = 5; expires_at = 0; token_hash = two }) ∷ [];
  fanned_out = (key_of claude (bytes "work"), two) ∷ [];
  launched = key_of claude one ∷ [];
  spent = key_of claude one ∷ [];
}

first_refreshes : do_call plain settings first_call quiet ≡ after_first
unfolding do_call same lookup contains mutate insert delete
first_refreshes = refl

second_refreshes :
    (do_call plain settings second_call after_first).launched
    ≡ key_of claude two ∷ key_of claude one ∷ []
unfolding do_call same lookup contains mutate insert delete
second_refreshes = refl

module _ (old new : Text) (now : ℕ) (w : World) (some_new : (new == []) ≡ false)
    (apart : (old == new) ≡ false) (profiles : w.profiles ≡ work old ∷ [])
    (journal : w.store.disk.journal ≡ [])
    (fresh : Fresh plain claude new (key_of claude old ∷ w.spent)) where
  shows_new :
      (text : Text)
      → old ≡ text
      → is_not_sent (outcome_of plain (work old) text (run_to new now)) ≡ false
  unfolding outcome_of
  shows_new text same_text =
      let apart' : (text == new) ≡ false = rw (sym same_text) apart in ground arith

  calm : Calm plain (work old) (run_to new now) w
  unfolding Among lookup
  calm = record {
    own = λ text hash file hashed. rw profiles (record {
      listed = inl refl;
      unique = ((λ _ _. refl), tt);
      alone = ((λ _. (refl, refl)), tt);
    });
    honest = λ text hash file hashed.
        let old_text : old ≡ text = cc in
        let old_hash : old ≡ hash = cc in
        record {
          saved = record {
            on_spend = refl;
            on_start = refl;
            on_rotate = refl;
            on_verdict = refl;
            on_clear = refl;
          };
          noted_launch = λ _. refl;
          shows = λ _. shows_new text old_text;
          fresh = λ _. rw (sym old_hash) fresh;
        };
    finds = λ e there. absurd (
        let nowhere = ap (λ (m : Map Text JournalEntry). lookup (key_of e.tool e.name) m) journal in
        cc);
  }

first-Fresh : Fresh plain claude two (key_of claude one ∷ [])
unfolding token_is contains same
first-Fresh account has = elim (Bool-cases (key_of claude two == account)) [
  | inl hit ↦ absurd (
      let at_two = (same_iff (key_of claude two) account).0 hit in
      let none_there : contains (key_of claude two) (key_of claude one ∷ []) ≡ false = refl in cc)
  | inr miss ↦ miss
]

second-Fresh : Fresh plain claude three (key_of claude two ∷ key_of claude one ∷ [])
unfolding token_is contains same
second-Fresh account has = elim (Bool-cases (key_of claude three == account)) [
  | inl hit ↦ absurd (
      let at_three = (same_iff (key_of claude three) account).0 hit in
      let none_there : contains (key_of claude three) (key_of claude two ∷ key_of claude one ∷ [])
          ≡ false =
        refl in
      cc)
  | inr miss ↦ miss
]

first_relies : Calm plain (work one) (run_to two 5) quiet
unfolding same
first_relies = calm one two 5 quiet refl refl refl refl first-Fresh

second_relies : Calm plain (work two) (run_to three (40 * minute)) after_first
unfolding same
second_relies = calm two three (40 * minute) after_first refl refl refl refl second-Fresh

both_rely : AllRely plain settings (first_call ∷ second_call ∷ []) quiet
unfolding AllRely
both_rely = (
  first_relies,
  (subst (λ w. Relies plain settings second_call w) (sym first_refreshes) second_relies, tt),
)

first_finished :
    unfinished plain claude one two (committed plain claude one two (λ name. true) quiet.profiles)
    ≡ false
unfolding same unfinished committed
first_finished = refl

first_reached :
    contains (bytes "work") (reached plain claude one two (λ name. true) quiet.profiles) ≡ true
unfolding same contains reached
first_reached = refl

first_last : after_first.last ≡ (commit_rotated plain (work one) one (run_to two 5) quiet).last
unfolding same lookup contains mutate insert delete commit_rotated
first_last = refl

spend_once_example : (do_calls plain settings (first_call ∷ second_call ∷ []) quiet).respent ≡ false
spend_once_example =
    spend_once plain settings (first_call ∷ second_call ∷ []) quiet plain-Identifies refl refl refl
      both_rely

-- The profile that the first refresh reached, ten minutes later.
refresh_profile-gap_example :
    refresh_profile plain settings true (work two) (run_to three (10 * minute)) after_first
    ≡ after_first
refresh_profile-gap_example =
    refresh_profile-gap plain settings true (work one) (work two) one (run_to two 5)
      (run_to three (10 * minute)) quiet after_first 0 two refl first_finished first_reached refl
      refl refl refl first_last (inl (omega arith)) (omega arith)

-- One login stored under two profiles, with a commit that reaches the first alone.
abbrev home : Text → Profile
home login = record (work login) { name = bytes "home" }

abbrev shared : World
shared = record quiet { profiles = work one ∷ home one ∷ [] }

abbrev partial_run : Run
partial_run = record (run_to two 5) { commits = λ name. name == bytes "work" }

abbrev half_committed : World
half_committed = do_call plain settings (refreshing true (work one) partial_run) shared

-- The second profile finds no journal entry under its own name, and its token is launched again.
second_profile_respends :
    (do_call plain settings
      (refreshing true (home one) (run_to three (10 * minute)))
      half_committed).respent
    ≡ true
unfolding do_call same lookup contains mutate insert delete
second_profile_respends = refl
