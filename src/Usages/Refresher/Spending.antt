-- ===== src/Usages/Refresher/Spending.antt =====
-- After a run the token that it may have spent is blocked: a verdict was told, a journal entry
-- guards it, or no profile carries it any more.
use aimebu.Prelude.{
  is_some, lookup, lookup-insert, contains, Text, same_iff, text_eq, ◌==◌, Bool-cases, nat_eq, ◌≡◌,
  refl, sym, ap, ◌∙◌, ◌⊎◌, inl, inr, true, false, some, List, arith,
}
use aimebu.Usages.StateStore.{
  set_journal, Tool, JournalEntry, AccountState, AccountEntry, key_of, set_account, apply,
  StateStore,
}
use aimebu.Usages.World.{Format, World, Run, back_off, change, is_spending}
use aimebu.Usages.Commits.{committed, reached, unfinished, finish_commit}
use aimebu.Usages.Refresher.{settle}
use aimebu.Usages.Refresher.Follows.{
  Only, Told, Follows, mutate-clean, Follows-end_journal, Follows-set_account,
}
use aimebu.Usages.Refresher.Commit.{Fresh, Identifies, finished-none}
use aimebu.Usages.Refresher.Parts.{Saved, Clean, Gone, Follows-end_commit}

-- The journal entry of a profile says that its token may be spent, and only profiles of that tool
-- and name carry the token.
pub record Guarded (f : Format) (account : Text) (e : JournalEntry) (w : World) : Type 0 where
  pub there : lookup (key_of e.tool e.name) w.store.disk.journal ≡ some e
  pub launched : is_spending e.phase ≡ false
  pub about : key_of e.tool e.spent_hash ≡ account
  pub only : Only f account (λ tool name. (tool ≡ e.tool) × (name ≡ e.name)) w.profiles

abbrev pub Blocked : Format → Text → World → Type 0
Blocked f account w =
    Told account w ⊎ Gone f account w ⊎ ((e : JournalEntry) × Guarded f account e w)

inserted :
    (e : AccountEntry) (w : World)
    → is_some (lookup (key_of e.tool e.spent_hash) (apply (set_account e) w.store.disk).accounts)
      ≡ true
unfolding apply
inserted e w =
    let key = key_of e.tool e.spent_hash in
    ground (arith, lookup-insert key key e w.store.disk.accounts, (same_iff key key).1 refl)

set_account-Told :
    (e : AccountEntry) (w : World)
    → Clean w
    → Told (key_of e.tool e.spent_hash) (change true (set_account e) w)
set_account-Told e w clean =
    ap (λ (s : StateStore). is_some (lookup (key_of e.tool e.spent_hash) s.disk.accounts))
      (mutate-clean (set_account e) w.store clean)
    ∙ inserted e w

module _ {f : Format} {k : Text} {spent : List Text} where
  -- What is blocked stays so, with the entry that is touched told apart.
  pub Blocked-Follows :
      (account : Text) (w w' : World)
      → Follows f k spent w w'
      → contains account spent ≡ true
      → ((e : JournalEntry)
          → (k == key_of e.tool e.name) ≡ true
          → Guarded f account e w
          → Blocked f account w')
      → Blocked f account w
      → Blocked f account w'
  Blocked-Follows account w w' r has own (inl told) = inl (r.told account told)
  Blocked-Follows account w w' r has own (inr (inl gone)) =
      inr (inl (r.carriers account (λ _ _. ⊥) has gone))
  Blocked-Follows account w w' r has own (inr (inr (e, g))) =
      elim (Bool-cases (k == key_of e.tool e.name)) [
        | inl hit ↦ own e hit g
        | inr miss ↦ inr (
            inr (
              e,
              record {
                there = r.journal (key_of e.tool e.name) miss ∙ g.there;
                launched = g.launched;
                about = g.about;
                only =
                    r.carriers account (λ tool name. (tool ≡ e.tool) × (name ≡ e.name)) has g.only;
              },
            ))
      ]

-- A guard at a key is that key's entry.
pub own_entry :
    (f : Format) (k account : Text) (e0 e : JournalEntry) (w : World)
    → lookup k w.store.disk.journal ≡ some e0
    → (k == key_of e.tool e.name) ≡ true
    → Guarded f account e w
    → e0 ≡ e
own_entry f k account e0 e w there hit g =
    let same_entry : some e0 ≡ some e =
      sym there
      ∙ ap (λ j. lookup j w.store.disk.journal) ((same_iff k (key_of e.tool e.name)).0 hit)
      ∙ g.there in
    cc

put :
    (e : JournalEntry) (w : World)
    → lookup (key_of e.tool e.name) (apply (set_journal e) w.store.disk).journal ≡ some e
unfolding apply
put e w =
    let key = key_of e.tool e.name in
    lookup-insert key key e w.store.disk.journal ∙ rw ((same_iff key key).1 refl) refl

-- What the journal holds for a profile after its entry was set.
pub set_journal-there :
    (e : JournalEntry) (w : World)
    → Clean w
    → lookup (key_of e.tool e.name) (change true (set_journal e) w).store.disk.journal ≡ some e
set_journal-there e w clean =
    ap (λ (s : StateStore). lookup (key_of e.tool e.name) s.disk.journal)
      (mutate-clean (set_journal e) w.store clean)
    ∙ put e w

-- An entry that says that the CLI was launched guards its token, if no other profile carries it.
pub set_journal-Guarded :
    (f : Format) (e : JournalEntry) (w : World)
    → Clean w
    → is_spending e.phase ≡ false
    → Only f
        (key_of e.tool e.spent_hash)
        (λ tool name. (tool ≡ e.tool) × (name ≡ e.name))
        w.profiles
    → Guarded f (key_of e.tool e.spent_hash) e (change true (set_journal e) w)
set_journal-Guarded f e w clean launched only = record {
  there = set_journal-there e w clean;
  launched = launched;
  about = refl;
  only = only;
}

module _ (f : Format) (spent : List Text) where
  pub settle-Told :
      (verdict : AccountState) (tool : Tool) (name hash entry : Text) (run : Run) (w : World)
      → Clean w
      → Saved run
      → Told (key_of tool hash) (settle f verdict tool name hash entry run w)
  unfolding settle
  settle-Told verdict tool name hash entry run w clean saved =
      let e : AccountEntry = record {
        tool = tool;
        name = name;
        state = verdict;
        spent_hash = hash;
        since = run.now;
      } in
      let told = Follows-set_account {f = f} {k = key_of tool entry} {spent = spent} e w clean in
      rw (saved.on_verdict, saved.on_clear)
        ((Follows-end_journal {f = f} {k = key_of tool entry} {spent = spent} tool entry
            (change true (set_account e) w) told.clean refl).told
          (key_of tool hash) (set_account-Told e w clean))

  -- A commit either leaves the state file as it was, or nobody with the token.
  pub finish_commit-Gone :
      (tool : Tool) (name hash rescue text : Text) (run : Run) (w : World)
      → Identifies f
      → Clean w
      → Saved run
      → contains (key_of tool hash) spent ≡ true
      → Fresh f tool text spent
      → ((finish_commit f tool name hash rescue text run w).store ≡ w.store)
        ⊎ Gone f (key_of tool hash) (finish_commit f tool name hash rescue text run w)
  unfolding finish_commit back_off
  finish_commit-Gone tool name hash rescue text run w law clean saved has fresh =
      let done = record w { profiles = committed f tool hash text run.commits w.profiles } in
      elim (Bool-cases (unfinished f tool hash text done.profiles)) [
        | inl left ↦ rw left (inl refl)
        | inr all ↦ rw all (
            inr (
              (Follows-end_commit {f = f} {k = key_of tool name} {spent = spent} tool name hash
                  rescue text run (reached f tool hash text run.commits w.profiles) done clean saved
                  refl).carriers
                (key_of tool hash) (λ _ _. ⊥) has
                (finished-none f tool hash text done.profiles law (fresh (key_of tool hash) has)
                  all)))
      ]
