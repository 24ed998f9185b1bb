-- ===== src/Usages/Refresher/Follows.antt =====
-- What a refresh or a recovery leaves alone: accounts that were told, journal entries of other
-- profiles, and which profiles carry a spent token.
use aimebu.Prelude.{
  All, Map, is_some, lookup, lookup-insert, lookup-delete, contains, Text, text_eq, ◌==◌,
  Option-cases, nat_eq, ℕ, ◌≡◌, refl, ap, ◌∙◌, inl, inr, Bool, true, false, not, ◌&&◌, none, some,
  List, [], ◌∷◌, arith,
}
use aimebu.Usages.StateStore.{
  Tool, claude, codex, JournalEntry, AccountEntry, key_of, Change, set_journal, clear_journal,
  set_account, apply, apply_all, StateStore, view, mutate, journal_entry,
}
use aimebu.Usages.World.{Format, Profile, World, change, drop_file, end_journal}
use aimebu.Usages.Commits.{}
use aimebu.Usages.Refresher.{}

-- The account of the token that a profile's own file holds.
unfoldable pub carries : Format → Text → Profile → Bool
carries f account p = not p.linked && elim p.file [
  | none ↦ false
  | some text ↦ elim (f.token_hash p.tool text) [
    | none ↦ false
    | some h ↦ key_of p.tool h == account
  ]
]

abbrev second_byte : Text → ℕ
second_byte (a ∷ b ∷ s) = b
second_byte _ = 0

pub key_of-inj :
    (tool other : Tool) (x y : Text) → key_of tool x ≡ key_of other y → (tool ≡ other) × (x ≡ y)
key_of-inj claude claude x y e = (refl, cc)
key_of-inj codex codex x y e = (refl, cc)
key_of-inj claude codex x y e = absurd (omega (arith, ap second_byte e))
key_of-inj codex claude x y e = absurd (omega (arith, ap second_byte e))

-- The profiles that carry a token are all of that kind.
abbrev pub Only : Format → Text → (Tool → Text → Type 0) → List Profile → Type 0
Only f account P ps = All (λ p. carries f account p ≡ true → P p.tool p.name) ps

abbrev pub Told : Text → World → Type 0
Told account w = is_some (lookup account w.store.disk.accounts) ≡ true

-- From `w` to `w'`, for the accounts of `spent` and the journal entry at `k`.
pub record Follows (f : Format) (k : Text) (spent : List Text) (w w' : World) : Type 1 where
  pub clean : w'.store.unsaved ≡ []
  pub told : (account : Text) → Told account w → Told account w'
  pub journal :
      (j : Text) → (k == j) ≡ false → lookup j w'.store.disk.journal ≡ lookup j w.store.disk.journal
  pub carriers :
      (account : Text) (P : Tool → Text → Type 0)
      → contains account spent ≡ true
      → Only f account P w.profiles
      → Only f account P w'.profiles
  pub same_spent : w'.spent ≡ w.spent
  pub same_respent : w'.respent ≡ w.respent

-- What is saved of a change when nothing waits to be saved.
pub mutate-clean :
    (c : Change) (s : StateStore)
    → s.unsaved ≡ []
    → mutate true c s ≡ record { disk = apply c s.disk; unsaved = [] }
unfolding mutate view apply_all
mutate-clean c s clean =
    ap (λ (u : List Change). record { disk = apply c (apply_all u s.disk); unsaved = [] }) clean

set_journal-told :
    (e : JournalEntry) (w : World) (account : Text)
    → Told account w
    → is_some (lookup account (apply (set_journal e) w.store.disk).accounts) ≡ true
unfolding apply
set_journal-told e w account h = h

set_journal-apart :
    (e : JournalEntry) (w : World) (j : Text)
    → (key_of e.tool e.name == j) ≡ false
    → lookup j (apply (set_journal e) w.store.disk).journal ≡ lookup j w.store.disk.journal
unfolding apply
set_journal-apart e w j apart =
    lookup-insert (key_of e.tool e.name) j e w.store.disk.journal ∙ rw apart refl

clear_journal-told :
    (tool : Tool) (name : Text) (w : World) (account : Text)
    → Told account w
    → is_some (lookup account (apply (clear_journal tool name) w.store.disk).accounts) ≡ true
unfolding apply
clear_journal-told tool name w account h = h

clear_journal-apart :
    (tool : Tool) (name : Text) (w : World) (j : Text)
    → (key_of tool name == j) ≡ false
    → lookup j (apply (clear_journal tool name) w.store.disk).journal
      ≡ lookup j w.store.disk.journal
unfolding apply
clear_journal-apart tool name w j apart =
    lookup-delete (key_of tool name) j w.store.disk.journal ∙ rw apart refl

set_account-told :
    (e : AccountEntry) (w : World) (account : Text)
    → Told account w
    → is_some (lookup account (apply (set_account e) w.store.disk).accounts) ≡ true
unfolding apply
set_account-told e w account h =
    ground (arith, lookup-insert (key_of e.tool e.spent_hash) account e w.store.disk.accounts)

set_account-journal :
    (e : AccountEntry) (w : World) (j : Text)
    → (apply (set_account e) w.store.disk).journal ≡ w.store.disk.journal
unfolding apply
set_account-journal e w j = refl

pub drop_file-store : (path : Text) (w : World) → (drop_file path w).store ≡ w.store
unfolding drop_file
drop_file-store path w = ground arith

pub drop_file-profiles : (path : Text) (w : World) → (drop_file path w).profiles ≡ w.profiles
unfolding drop_file
drop_file-profiles path w = ground arith

pub drop_file-spent : (path : Text) (w : World) → (drop_file path w).spent ≡ w.spent
unfolding drop_file
drop_file-spent path w = ground arith

pub drop_file-respent : (path : Text) (w : World) → (drop_file path w).respent ≡ w.respent
unfolding drop_file
drop_file-respent path w = ground arith

module _ {f : Format} {k : Text} {spent : List Text} where
  pub Follows-trans :
      {u v w : World} → Follows f k spent u v → Follows f k spent v w → Follows f k spent u w
  Follows-trans r s = record {
    clean = s.clean;
    told = λ account h. s.told account (r.told account h);
    journal = λ j apart. s.journal j apart ∙ r.journal j apart;
    carriers = λ account P has h. s.carriers account P has (r.carriers account P has h);
    same_spent = s.same_spent ∙ r.same_spent;
    same_respent = s.same_respent ∙ r.same_respent;
  }

  -- A change that touches neither the store nor the profiles.
  pub Follows-same :
      (w w' : World)
      → w.store.unsaved ≡ []
      → w'.store ≡ w.store
      → w'.profiles ≡ w.profiles
      → w'.spent ≡ w.spent
      → w'.respent ≡ w.respent
      → Follows f k spent w w'
  Follows-same w w' clean store profiles same_spent same_respent = record {
    clean = ap (λ (s : StateStore). s.unsaved) store ∙ clean;
    told = λ account h. rw store h;
    journal = λ j apart. ap (λ (s : StateStore). lookup j s.disk.journal) store;
    carriers = λ account P has h. rw profiles h;
    same_spent = same_spent;
    same_respent = same_respent;
  }

  pub Follows-change :
      (c : Change) (w : World)
      → w.store.unsaved ≡ []
      → ((account : Text)
          → Told account w
          → is_some (lookup account (apply c w.store.disk).accounts) ≡ true)
      → ((j : Text)
          → (k == j) ≡ false
          → lookup j (apply c w.store.disk).journal ≡ lookup j w.store.disk.journal)
      → Follows f k spent w (change true c w)
  Follows-change c w clean told journal =
      let saved = mutate-clean c w.store clean in
      record {
        clean = ap (λ (s : StateStore). s.unsaved) saved;
        told = λ account h. rw saved (told account h);
        journal =
            λ j apart. ap (λ (s : StateStore). lookup j s.disk.journal) saved ∙ journal j apart;
        carriers = λ account P has h. h;
        same_spent = refl;
        same_respent = refl;
      }

  pub Follows-set_journal :
      (e : JournalEntry) (w : World)
      → w.store.unsaved ≡ []
      → key_of e.tool e.name ≡ k
      → Follows f k spent w (change true (set_journal e) w)
  Follows-set_journal e w clean own =
      Follows-change (set_journal e) w clean (set_journal-told e w)
        (λ j apart. set_journal-apart e w j (rw own apart))

  pub Follows-drop :
      (path : Text) (w : World) → w.store.unsaved ≡ [] → Follows f k spent w (drop_file path w)
  Follows-drop path w clean =
      Follows-same w (drop_file path w) clean (drop_file-store path w) (drop_file-profiles path w)
        (drop_file-spent path w) (drop_file-respent path w)

  pub Follows-end_journal :
      (tool : Tool) (name : Text) (w : World)
      → w.store.unsaved ≡ []
      → key_of tool name ≡ k
      → Follows f k spent w (end_journal true tool name w)
  unfolding end_journal drop_file
  Follows-end_journal tool name w clean own =
      let cleared : Follows f k spent w (change true (clear_journal tool name) w) =
        Follows-change (clear_journal tool name) w clean (clear_journal-told tool name w)
          (λ j apart. clear_journal-apart tool name w j (rw own apart)) in
      elim (Option-cases (journal_entry tool name w.store)) [
        | inl absent ↦ rw (absent, end_journal) cleared
        | inr (e, there) ↦
            rw (there, end_journal)
              (Follows-trans cleared
                (Follows-drop e.temp_dir (change true (clear_journal tool name) w) cleared.clean))
      ]

  pub Follows-set_account :
      (e : AccountEntry) (w : World)
      → w.store.unsaved ≡ []
      → Follows f k spent w (change true (set_account e) w)
  Follows-set_account e w clean =
      Follows-change (set_account e) w clean (set_account-told e w)
        (λ j apart. ap (λ (m : Map Text JournalEntry). lookup j m) (set_account-journal e w j))
