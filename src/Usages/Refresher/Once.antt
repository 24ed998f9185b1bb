-- ===== src/Usages/Refresher/Once.antt =====
-- No token is spent twice, over any sequence of refreshes, recoveries and crashes.
use aimebu.Prelude.{
  is_some, lookup, contains, Text, text_eq, ltb, if◌then◌else◌, Bool-cases, Option-cases, nat_eq,
  ◌≡◌, refl, inl, inr, Bool, true, false, not, ◌&&◌, ◌||◌, none, some, List, [], ◌∷◌, arith,
}
use aimebu.Usages.StateStore.{JournalEntry, key_of, account_entry}
use aimebu.Usages.World.{Format, Profile, World, Settings, Run, attempt_of, note_failure, crashed}
use aimebu.Usages.Commits.{}
use aimebu.Usages.Refresher.{
  spend, recover_entry, journal_for, settle_leftover, is_due, is_settling, refresh_account,
  refresh_profile,
}
use aimebu.Usages.Refresher.Follows.{}
use aimebu.Usages.Refresher.Commit.{Identifies}
use aimebu.Usages.Refresher.Parts.{Saved}
use aimebu.Usages.Refresher.Settled.{Watched, Watched-same, Watched-crashed}
use aimebu.Usages.Refresher.Recovered.{FindsFresh, recover_entry-Watched}
use aimebu.Usages.Refresher.Spent.{spend-Watched}
use aimebu.Usages.Refresher.Gate.{
  carries_own, ready, journal_for-there, gate, Calm, unlinked_due, settle_leftover-Watched,
}

module _ (f : Format) (set : Settings) (holds_lock : Bool) (p : Profile) (run : Run) (w : World)
    (law : Identifies f) (h : Watched f w) (calm : Calm f p run w) where
  passed :
      (text hash : Text)
      → p.file ≡ some text
      → f.token_hash p.tool text ≡ some hash
      → is_due f set p text hash run w ≡ true
      → is_some (account_entry p.tool hash w.store) ≡ false
      → journal_for f p.tool p.name hash w ≡ none
      → Watched f (spend f p text hash run w)
  passed text hash file hashed due no_verdict no_entry =
      let own = calm.own text hash file hashed in
      let linked = unlinked_due f set holds_lock p run w law h calm text hash due in
      elim (Bool-cases (contains (key_of p.tool hash) w.spent)) [
        | inl used ↦ absurd (
            gate f p hash w h.clean (h.blocked (key_of p.tool hash) used) own
              (carries_own f p text hash w file hashed linked) no_verdict no_entry)
        | inr unused ↦
            spend-Watched f p text hash run w law (calm.honest text hash file hashed) h
              (ready f p text hash w file hashed linked run own unused)
      ]

  reached_journal :
      (text hash : Text)
      → p.file ≡ some text
      → f.token_hash p.tool text ≡ some hash
      → is_due f set p text hash run w ≡ true
      → is_some (account_entry p.tool hash w.store) ≡ false
      → Watched f (elim (journal_for f p.tool p.name hash w) [
        | some e ↦ settle_leftover f e run w
        | none ↦
            if not run.available || not run.reachable
            then note_failure (key_of p.tool hash) false run.now w
            else spend f p text hash run w
      ])
  unfolding note_failure
  reached_journal text hash file hashed due no_verdict =
      elim (Option-cases (journal_for f p.tool p.name hash w)) [
        | inr (e, found) ↦ simp found (
            settle_leftover-Watched f set holds_lock p run w law h calm e
              (journal_for-there f p hash w h.clean e found)
              (calm.honest text hash file hashed).saved)
        | inl nothing ↦ simp nothing (elim (Bool-cases (not run.available || not run.reachable)) [
          | inl not_now ↦ simp not_now (Watched-same w _ refl refl refl refl h)
          | inr now ↦ simp now (passed text hash file hashed due no_verdict nothing)
        ])
      ]

  refresh_account-Watched :
      (text hash : Text)
      → p.file ≡ some text
      → f.token_hash p.tool text ≡ some hash
      → Watched f (refresh_account f set holds_lock p text hash run w)
  unfolding refresh_account
  refresh_account-Watched text hash file hashed =
      let account = key_of p.tool hash in
      elim (Bool-cases
        (is_settling f set holds_lock p run || not (is_due f set p text hash run w))) [
          | inl early ↦ simp early h
          | inr due ↦ simp due (elim (Bool-cases (is_some (account_entry p.tool hash w.store))) [
            | inl verdict ↦ simp verdict h
            | inr no_verdict ↦
                simp no_verdict (elim (Bool-cases (ltb run.now (attempt_of account w).next_try)) [
                  | inl waits ↦ simp waits h
                  | inr tries ↦
                      simp tries (elim (Bool-cases (not holds_lock && not run.lock_free)) [
                        | inl locked ↦ simp locked h
                        | inr free ↦
                            simp free
                              (reached_journal text hash file hashed (ground arith) no_verdict)
                      ])
                ])
          ])
        ]

  pub refresh_profile-Watched : Watched f (refresh_profile f set holds_lock p run w)
  unfolding refresh_profile
  refresh_profile-Watched = elim (Option-cases p.file) [
    | inl unread ↦ simp (unread, refresh_profile) h
    | inr (text, file) ↦ elim (Option-cases (f.token_hash p.tool text)) [
      | inl without ↦ simp (file, without, refresh_profile) h
      | inr (hash, hashed) ↦
          simp (file, hashed, refresh_profile) (refresh_account-Watched text hash file hashed)
    ]
  ]

pub data Call : Type 0 where
  refreshing : Bool → Profile → Run → Call
  recovering : JournalEntry → Run → Call
  dying : Call

module _ (f : Format) (set : Settings) where
  unfoldable pub do_call : Call → World → World
  unfolding refresh_profile recover_entry crashed
  do_call (refreshing holds_lock p run) w = refresh_profile f set holds_lock p run w
  do_call (recovering e run) w = (recover_entry f e run w).0
  do_call dying w = crashed w

  unfoldable pub do_calls : List Call → World → World
  unfolding do_call
  do_calls [] w = w
  do_calls (c ∷ cs) w = do_calls cs (do_call c w)

  -- What a call relies on; a recovery is one of an entry of the journal.
  abbrev pub Relies : Call → World → Type 1
  Relies (refreshing holds_lock p run) w = Calm f p run w
  Relies (recovering e run) w =
      Saved run
      × (lookup (key_of e.tool e.name) w.store.disk.journal ≡ some e)
      × FindsFresh f e w
      × Unit {1}
  Relies dying w = Unit

  unfoldable pub AllRely : List Call → World → Type 1
  unfolding do_call
  AllRely [] w = Unit
  AllRely (c ∷ cs) w = Relies c w × AllRely cs (do_call c w)

  do_call-Watched :
      (c : Call) (w : World) → Identifies f → Relies c w → Watched f w → Watched f (do_call c w)
  unfolding do_call
  do_call-Watched (refreshing holds_lock p run) w law relies h =
      refresh_profile-Watched f set holds_lock p run w law h relies
  do_call-Watched (recovering e run) w law relies h =
      recover_entry-Watched f e run w relies.0 law h relies.1 relies.2
  do_call-Watched dying w law relies h = Watched-crashed w h

  do_calls-Watched :
      (cs : List Call) (w : World)
      → Identifies f
      → AllRely cs w
      → Watched f w
      → Watched f (do_calls cs w)
  unfolding do_calls AllRely
  do_calls-Watched [] w law relies h = h
  do_calls-Watched (c ∷ cs) w law relies h =
      do_calls-Watched cs (do_call c w) law relies.1 (do_call-Watched c w law relies.0 h)

  -- Whatever refreshes, recoveries and crashes follow each other, the CLI is never launched with a
  -- token that the provider has consumed before: if nothing was spent or is waiting to be saved at
  -- the start, logins with one access token have one refresh token, and every call is made in a world
  -- in which the saves of the state file succeed, each profile is the only one of its name and the
  -- only one with its token, the process does not die between a launch that consumes the token and
  -- the note of it, a consumed token shows in what the CLI says, and a login that the CLI obtains, or
  -- that a recovery finds, has a token that was not spent.
  pub spend_once :
      (cs : List Call) (w : World)
      → Identifies f
      → w.store.unsaved ≡ []
      → w.spent ≡ []
      → w.respent ≡ false
      → AllRely cs w
      → (do_calls cs w).respent ≡ false
  unfolding contains
  spend_once cs w law clean unspent once relies =
      (do_calls-Watched cs w law relies (record {
        clean = clean;
        blocked = λ account has.
            absurd (let none_spent : contains account w.spent ≡ false = rw unspent refl in cc);
        once = once;
      })).once
