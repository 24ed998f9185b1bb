-- ===== src/Usages/Refresher/Parts.antt =====
-- The parts of the protocol leave alone what is not theirs, if the state file can be written.
use aimebu.Prelude.{
  length, insert, delete, Text, text_eq, leb, Bool-cases, nat_eq, ℕ, ◌≡◌, refl, inl, inr, Bool,
  true, List, [], ◌∷◌,
}
use aimebu.Usages.StateStore.{Tool, AccountState, AccountEntry, key_of, set_account}
use aimebu.Usages.World.{
  Format, World, Run, zero_attempt, note_failure, back_off, change, drop_file, end_journal,
}
use aimebu.Usages.Commits.{committed, reached, unfinished, noted, end_commit, finish_commit}
use aimebu.Usages.Refresher.{settle}
use aimebu.Usages.Refresher.Follows.{
  Follows-drop, Only, Follows, Follows-trans, Follows-same, Follows-end_journal,
  Follows-set_account,
}
use aimebu.Usages.Refresher.Commit.{Fresh, committed-Only}

-- Every save of the state file succeeds.
pub record Saved (r : Run) : Type 0 where
  pub on_spend : r.saves.on_spend ≡ true
  pub on_start : r.saves.on_start ≡ true
  pub on_rotate : r.saves.on_rotate ≡ true
  pub on_verdict : r.saves.on_verdict ≡ true
  pub on_clear : r.saves.on_clear ≡ true

abbrev pub Clean : World → Type 0
Clean w = w.store.unsaved ≡ []

abbrev pub Gone : Format → Text → World → Type 0
Gone f account w = Only f account (λ _ _. ⊥) w.profiles

noted-same :
    (f : Format) (tool : Tool) (text : Text) (now : ℕ) (names : List Text) (w : World)
    → ((noted f tool text now names w).store ≡ w.store)
      × ((noted f tool text now names w).profiles ≡ w.profiles)
      × ((noted f tool text now names w).spent ≡ w.spent)
      × ((noted f tool text now names w).respent ≡ w.respent)
unfolding noted
noted-same f tool text now [] w = (refl, refl, refl, refl)
noted-same f tool text now (name ∷ names) w = noted-same f tool text now names _

module _ {f : Format} {k : Text} {spent : List Text} where
  pub Follows-note_failure :
      (account : Text) (noop : Bool) (now : ℕ) (w : World)
      → Clean w
      → Follows f k spent w (note_failure account noop now w)
  unfolding note_failure
  Follows-note_failure account noop now w clean = Follows-same w _ clean refl refl refl refl

  pub Follows-back_off :
      (account : Text) (now : ℕ) (w : World)
      → Clean w
      → Follows f k spent w (back_off account now w)
  unfolding back_off
  Follows-back_off account now w clean = Follows-same w _ clean refl refl refl refl

  pub Follows-noted :
      (tool : Tool) (text : Text) (now : ℕ) (names : List Text) (w : World)
      → Clean w
      → Follows f k spent w (noted f tool text now names w)
  Follows-noted tool text now names w clean =
      let (store, profiles, same_spent, same_respent) = noted-same f tool text now names w in
      Follows-same w (noted f tool text now names w) clean store profiles same_spent same_respent

  pub Follows-committed :
      (tool : Tool) (hash text : Text) (commits : Text → Bool) (w : World)
      → Clean w
      → Fresh f tool text spent
      → Follows f k spent w (record w { profiles = committed f tool hash text commits w.profiles })
  Follows-committed tool hash text commits w clean fresh = record {
    clean = clean;
    told = λ account h. h;
    journal = λ j apart. refl;
    carriers = λ account P has h.
        committed-Only f tool hash text account commits P w.profiles (fresh account has) h;
    same_spent = refl;
    same_respent = refl;
  }

  pub Follows-settle :
      (verdict : AccountState) (tool : Tool) (name hash entry : Text) (run : Run) (w : World)
      → Clean w
      → Saved run
      → key_of tool entry ≡ k
      → Follows f k spent w (settle f verdict tool name hash entry run w)
  unfolding settle
  Follows-settle verdict tool name hash entry run w clean saved own =
      let e : AccountEntry = record {
        tool = tool;
        name = name;
        state = verdict;
        spent_hash = hash;
        since = run.now;
      } in
      let told = Follows-set_account {f = f} {k = k} {spent = spent} e w clean in
      rw (saved.on_verdict, saved.on_clear)
        (Follows-trans told
          (Follows-end_journal tool entry (change true (set_account e) w) told.clean own))

  pub Follows-end_commit :
      (tool : Tool) (name hash rescue text : Text) (run : Run) (names : List Text) (w : World)
      → Clean w
      → Saved run
      → key_of tool name ≡ k
      → Follows f k spent w (end_commit f tool name hash rescue text run names w)
  unfolding end_commit
  Follows-end_commit tool name hash rescue text run names w clean saved own =
      let dropped = record w { pending = delete (key_of tool hash) w.pending } in
      let settled = end_journal true tool name dropped in
      let kept = record settled {
        attempts = insert (key_of tool hash) zero_attempt settled.attempts;
      } in
      let ended : Follows f k spent w settled =
        Follows-trans (Follows-same w dropped clean refl refl refl refl)
          (Follows-end_journal tool name dropped clean own) in
      let reset = Follows-trans ended (Follows-same settled kept ended.clean refl refl refl refl) in
      let removed = Follows-trans reset (Follows-drop rescue kept reset.clean) in
      rw saved.on_clear (elim (Bool-cases (leb (length names) 0)) [
        | inl nobody ↦ rw nobody ended
        | inr some_names ↦ rw some_names (
            Follows-trans removed
              (Follows-noted tool text run.now names (drop_file rescue kept) removed.clean))
      ])

  pub Follows-finish_commit :
      (tool : Tool) (name hash rescue text : Text) (run : Run) (w : World)
      → Clean w
      → Saved run
      → Fresh f tool text spent
      → key_of tool name ≡ k
      → Follows f k spent w (finish_commit f tool name hash rescue text run w)
  unfolding finish_commit
  Follows-finish_commit tool name hash rescue text run w clean saved fresh own =
      let done = record w { profiles = committed f tool hash text run.commits w.profiles } in
      let written = Follows-committed tool hash text run.commits w clean fresh in
      elim (Bool-cases (unfinished f tool hash text done.profiles)) [
        | inl left ↦
            rw left (Follows-trans written (Follows-back_off (key_of tool hash) run.now done clean))
        | inr all ↦ rw all (
            Follows-trans written (
              Follows-end_commit tool name hash rescue text run
                (reached f tool hash text run.commits w.profiles) done clean saved own))
      ]
