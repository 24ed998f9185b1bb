-- ===== src/Usages/Refresher/Gate.antt =====
-- The gates of a refresh: a token that was spent is blocked, so that no second run reaches it.
use aimebu.Usages.Refresher.Commit.{Identifies, same_tool-eq, same_tool_refl}
use aimebu.Usages.Refresher.Parts.{Saved, Clean}
use aimebu.Usages.Refresher.Spending.{Guarded, Blocked}
use aimebu.Prelude.{
  All, is_some, lookup, contains, Text, same_iff, text_eq, ◌==◌, Bool-cases, Option-cases, nat_eq,
  ◌≡◌, refl, sym, ap, subst, ◌∙◌, ◌⊎◌, inl, inr, Bool, true, false, ◌&&◌, none, some, List, [], ◌∷◌,
  arith,
}
use aimebu.Usages.StateStore.{
  Tool, same_tool, JournalEntry, StateData, key_of, apply_all, StateStore, view, journal_entry,
  account_entry,
}
use aimebu.Usages.World.{Format, Profile, World, Settings, Run, back_off}
use aimebu.Usages.Commits.{}
use aimebu.Usages.Refresher.{recover_entry, journal_for, settle_leftover, is_due}
use aimebu.Usages.Refresher.Follows.{carries, key_of-inj, Only}
use aimebu.Usages.Refresher.Launched.{Ready}
use aimebu.Usages.Refresher.Settled.{Watched-same, Watched}
use aimebu.Usages.Refresher.Spent.{Honest}
use aimebu.Usages.Refresher.Recovered.{recover_entry-Watched, FindsFresh}

unfoldable pub Among : Profile → List Profile → Type 0
Among p [] = ⊥
Among p (q ∷ qs) = (q ≡ p) ⊎ Among p qs

-- The profile has its tool and name alone, and they alone have its token.
pub record Own (f : Format) (p : Profile) (hash : Text) (ps : List Profile) : Type 1 where
  pub listed : Among p ps
  pub unique : All (λ q. q.tool ≡ p.tool → q.name ≡ p.name → q ≡ p) ps
  pub alone : Only f (key_of p.tool hash) (λ tool name. (tool ≡ p.tool) × (name ≡ p.name)) ps

Only-Among :
    (f : Format) (account : Text) (P : Tool → Text → Type 0) (p : Profile) (ps : List Profile)
    → Among p ps
    → Only f account P ps
    → carries f account p ≡ true
    → P p.tool p.name
unfolding Among
Only-Among f account P p [] m h carried = absurd m
Only-Among f account P p (q ∷ ps) (inl same_profile) h carried =
    subst (λ (r : Profile). P r.tool r.name) same_profile (h.0 (rw same_profile carried))
Only-Among f account P p (q ∷ ps) (inr m) h carried = Only-Among f account P p ps m h.1 carried

module _ (f : Format) (p : Profile) (text hash : Text) (w : World) (file : p.file ≡ some text)
    (hashed : f.token_hash p.tool text ≡ some hash) (unlinked : p.linked ≡ false) where
  pub carries_own : carries f (key_of p.tool hash) p ≡ true
  unfolding carries
  carries_own = ground (arith, same_iff (key_of p.tool hash) (key_of p.tool hash))

  own_only : (account : Text) → carries f account p ≡ true → key_of p.tool hash ≡ account
  unfolding carries
  own_only account carried = ground (arith, same_iff (key_of p.tool hash) account)

  others_gone :
      (account : Text) (e : JournalEntry) (ps : List Profile)
      → key_of p.tool p.name ≡ key_of e.tool e.name
      → (key_of p.tool hash ≡ account → ⊥)
      → All (λ q. q.tool ≡ p.tool → q.name ≡ p.name → q ≡ p) ps
      → Only f account (λ tool name. (tool ≡ e.tool) × (name ≡ e.name)) ps
      → Only f account (λ _ _. ⊥) ps
  others_gone account e [] key apart unique only = tt
  others_gone account e (q ∷ ps) key apart unique only = (
    (λ carried.
        let (tool, name) = only.0 carried in
        let (own_tool, own_name) = key_of-inj p.tool e.tool p.name e.name key in
        let same_profile = unique.0 (tool ∙ sym own_tool) (name ∙ sym own_name) in
        apart (own_only account (rw (sym same_profile) carried))),
    others_gone account e ps key apart unique.1 only.1,
  )

  pub ready :
      (run : Run)
      → Own f p hash w.profiles
      → contains (key_of p.tool hash) w.spent ≡ false
      → Ready f p hash run w
  ready run own unspent = record {
    unspent = unspent;
    alone = own.alone;
    others = λ account e has hit g.
        others_gone account e w.profiles
          ((same_iff (key_of p.tool p.name) (key_of e.tool e.name)).0 hit) (λ same_account. cc)
          own.unique g.only;
  }

view_clean : (s : StateStore) → s.unsaved ≡ [] → view s ≡ s.disk
unfolding view apply_all
view_clean s clean = ap (λ cs. apply_all cs s.disk) clean

account_entry_clean :
    (tool : Tool) (hash : Text) (s : StateStore)
    → s.unsaved ≡ []
    → account_entry tool hash s ≡ lookup (key_of tool hash) s.disk.accounts
unfolding account_entry
account_entry_clean tool hash s clean =
    ap (λ (d : StateData). lookup (key_of tool hash) d.accounts) (view_clean s clean)

journal_entry_clean :
    (tool : Tool) (name : Text) (s : StateStore)
    → s.unsaved ≡ []
    → journal_entry tool name s ≡ lookup (key_of tool name) s.disk.journal
unfolding journal_entry
journal_entry_clean tool name s clean =
    ap (λ (d : StateData). lookup (key_of tool name) d.journal) (view_clean s clean)

module _ (f : Format) (p : Profile) (hash : Text) (w : World) (clean : Clean w) where
  pub journal_for-there :
      (e : JournalEntry)
      → journal_for f p.tool p.name hash w ≡ some e
      → lookup (key_of e.tool e.name) w.store.disk.journal ≡ some e
  unfolding journal_for
  journal_for-there e found = elim (Option-cases (journal_entry p.tool p.name w.store)) [
    | inl absent ↦ absurd (ground arith)
    | inr (e', there) ↦
        let stored = sym (journal_entry_clean p.tool p.name w.store clean) ∙ there in
        let matches : (same_tool e'.tool p.tool && (e'.name == p.name && e'.spent_hash == hash))
            ≡ true =
          ground arith in
        let same_entry : e' ≡ e = ground arith in
        let tool = same_tool-eq e'.tool p.tool (ground arith) in
        let name : e'.name ≡ p.name = (same_iff e'.name p.name).0 (ground arith) in
        let key : key_of e'.tool e'.name ≡ key_of p.tool p.name = rw (tool, name) refl in
        subst (λ (j : JournalEntry). lookup (key_of j.tool j.name) w.store.disk.journal ≡ some j)
          same_entry (ap (λ k. lookup k w.store.disk.journal) key ∙ stored)
  ]

  guard_found :
      (e : JournalEntry)
      → Guarded f (key_of p.tool hash) e w
      → e.tool ≡ p.tool
      → e.name ≡ p.name
      → journal_for f p.tool p.name hash w ≡ some e
  unfolding journal_for
  guard_found e g tool name =
      let stored : journal_entry p.tool p.name w.store ≡ some e =
        journal_entry_clean p.tool p.name w.store clean
        ∙ ap (λ k. lookup k w.store.disk.journal) (rw (tool, name) refl)
        ∙ g.there in
      let (_, same_hash) = key_of-inj e.tool p.tool e.spent_hash hash g.about in
      rw (stored, journal_for)
        (ground (arith, same_tool_refl p.tool, same_iff e.name p.name, same_iff e.spent_hash hash))

  -- A token that was spent does not pass the gates.
  pub gate :
      Blocked f (key_of p.tool hash) w
      → Own f p hash w.profiles
      → carries f (key_of p.tool hash) p ≡ true
      → is_some (account_entry p.tool hash w.store) ≡ false
      → journal_for f p.tool p.name hash w ≡ none
      → ⊥
  gate (inl told) own carried no_verdict no_entry =
      let seen = account_entry_clean p.tool hash w.store clean in cc
  gate (inr (inl gone)) own carried no_verdict no_entry =
      Only-Among f (key_of p.tool hash) (λ _ _. ⊥) p w.profiles own.listed gone carried
  gate (inr (inr (e, g))) own carried no_verdict no_entry =
      let (tool, name) =
        Only-Among f (key_of p.tool hash) (λ tool name. (tool ≡ e.tool) × (name ≡ e.name)) p
          w.profiles own.listed g.only carried in
      let found = guard_found e g (sym tool) (sym name) in cc

-- What a call of the refresher on a profile relies on.
pub record Calm (f : Format) (p : Profile) (run : Run) (w : World) : Type 1 where
  pub own :
      (text hash : Text)
      → p.file ≡ some text
      → f.token_hash p.tool text ≡ some hash
      → Own f p hash w.profiles
  pub honest :
      (text hash : Text)
      → p.file ≡ some text
      → f.token_hash p.tool text ≡ some hash
      → Honest f p text hash run w
  pub finds :
      (e : JournalEntry)
      → lookup (key_of e.tool e.name) w.store.disk.journal ≡ some e
      → FindsFresh f e w

module _ (f : Format) (set : Settings) (holds_lock : Bool) (p : Profile) (run : Run) (w : World)
    (law : Identifies f) (h : Watched f w) (calm : Calm f p run w) where
  pub unlinked_due : (text hash : Text) → is_due f set p text hash run w ≡ true → p.linked ≡ false
  unfolding is_due
  unlinked_due text hash due = ground arith

  pub settle_leftover-Watched :
      (e : JournalEntry)
      → lookup (key_of e.tool e.name) w.store.disk.journal ≡ some e
      → Saved run
      → Watched f (settle_leftover f e run w)
  unfolding settle_leftover back_off
  settle_leftover-Watched e there saved =
      let after = recover_entry-Watched f e run w saved law h there (calm.finds e there) in
      elim (Bool-cases (recover_entry f e run w).1) [
        | inl stays ↦
            rw stays (Watched-same (recover_entry f e run w).0 _ refl refl refl refl after)
        | inr done ↦ rw done after
      ]
