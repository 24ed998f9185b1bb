-- ===== src/Usages/Refresher/Recovered.antt =====
-- The recovery of a run that died: its token stays blocked, or nobody has it any more.
use aimebu.Prelude.{
  select, or_zero, lookup, insert, delete, contains, Text, text_eq, ◌==◌, Bool-cases, Option-cases,
  nat_eq, ◌≡◌, refl, ap, subst, ◌∙◌, inl, inr, true, some, List, [], ◌∷◌, arith,
}
use aimebu.Usages.StateStore.{JournalEntry, needs_relogin_soon, key_of}
use aimebu.Usages.World.{Format, Profile, World, Run, drop_file, end_journal, is_spending}
use aimebu.Usages.Commits.{holds, committed, reached, unfinished}
use aimebu.Usages.Refresher.{recover_held, recover_rotated, recover_commit, recover_entry}
use aimebu.Usages.Refresher.Follows.{
  Only, Follows, Follows-trans, Follows-same, Follows-drop, Follows-end_journal,
}
use aimebu.Usages.Refresher.Commit.{Fresh, Identifies, carries-holds, finished-none}
use aimebu.Usages.Refresher.Parts.{Saved, Follows-noted, Follows-committed, Follows-settle}
use aimebu.Usages.Refresher.Spending.{Guarded, Blocked, own_entry, settle-Told}
use aimebu.Usages.Refresher.Settled.{Watched, Watched-Follows}

-- A login that is found for an entry has a token that was not spent.
abbrev pub FindsFresh : Format → JournalEntry → World → Type 0
FindsFresh f e w =
    (spent text : Text) → recover_rotated f e spent w ≡ some text → Fresh f e.tool text w.spent

module _ (f : Format) (e : JournalEntry) (run : Run) (w : World) where
  no_holder-Gone :
      (ps : List Profile)
      → select (holds f e.tool e.spent_hash) ps ≡ []
      → Only f (key_of e.tool e.spent_hash) (λ _ _. ⊥) ps
  no_holder-Gone [] h = tt
  no_holder-Gone (p ∷ ps) h = elim (Bool-cases (holds f e.tool e.spent_hash p)) [
    | inl held ↦ absurd (ground arith)
    | inr free ↦ (
      (λ carried. absurd (let held = carries-holds f e.tool e.spent_hash p carried in cc)),
      no_holder-Gone ps (ground arith),
    )
  ]

  entry_about :
      (account : Text) (e' : JournalEntry)
      → lookup (key_of e.tool e.name) w.store.disk.journal ≡ some e
      → (key_of e.tool e.name == key_of e'.tool e'.name) ≡ true
      → Guarded f account e' w
      → key_of e.tool e.spent_hash ≡ account
  entry_about account e' there hit g =
      let same_entry = own_entry f (key_of e.tool e.name) account e e' w there hit g in
      ap (λ (j : JournalEntry). key_of j.tool j.spent_hash) same_entry ∙ g.about

  -- An entry may end once its token is carried by nobody.
  ended-Watched :
      (w' : World)
      → Watched f w
      → lookup (key_of e.tool e.name) w.store.disk.journal ≡ some e
      → Follows f (key_of e.tool e.name) w.spent w w'
      → (contains (key_of e.tool e.spent_hash) w.spent ≡ true
          → Blocked f (key_of e.tool e.spent_hash) w')
      → Watched f w'
  ended-Watched w' h there r gone = Watched-Follows w w' h r (λ account e' has hit g.
      let about = entry_about account e' there hit g in
      subst (λ a. Blocked f a w') about (gone (rw about has)))

  module _ (saved : Saved run) (law : Identifies f) (h : Watched f w)
      (there : lookup (key_of e.tool e.name) w.store.disk.journal ≡ some e) where
    recover_commit-Watched :
        (text : Text) → Fresh f e.tool text w.spent → Watched f (recover_commit f e text run w).0
    unfolding recover_commit
    recover_commit-Watched text fresh =
        let account = key_of e.tool e.spent_hash in
        let done = record w {
          profiles = committed f e.tool e.spent_hash text run.commits w.profiles;
        } in
        let written : Follows f (key_of e.tool e.name) w.spent w done =
          Follows-committed e.tool e.spent_hash text run.commits w h.clean fresh in
        elim (Bool-cases (unfinished f e.tool e.spent_hash text done.profiles)) [
          | inl left ↦
              let kept = Follows-trans written (
                Follows-same done (record done { pending = insert account text done.pending })
                  h.clean refl refl refl refl) in
              rw left (
                Watched-Follows w _ h kept (λ a e' has hit g. inr (
                  inr (
                    e',
                    record {
                      there = g.there;
                      launched = g.launched;
                      about = g.about;
                      only =
                          written.carriers a (λ tool name. (tool ≡ e'.tool) × (name ≡ e'.name)) has
                            g.only;
                    },
                  ))))
          | inr all ↦
              let unheld = record done { pending = delete account done.pending } in
              let names = reached f e.tool e.spent_hash text run.commits w.profiles in
              let emptied : Follows f (key_of e.tool e.name) w.spent done
                  (drop_file e.rescue unheld) =
                Follows-trans (Follows-same done unheld h.clean refl refl refl refl)
                  (Follows-drop e.rescue unheld h.clean) in
              let ended =
                Follows-end_journal e.tool e.name (drop_file e.rescue unheld) emptied.clean refl in
              let removed = Follows-trans (Follows-trans emptied ended) (
                Follows-noted e.tool text run.now names
                  (end_journal true e.tool e.name (drop_file e.rescue unheld)) ended.clean) in
              rw (all, saved.on_clear)
                (ended-Watched _ h there (Follows-trans written removed) (λ has. inr (
                  inl (
                    removed.carriers account (λ _ _. ⊥) has
                      (finished-none f e.tool e.spent_hash text done.profiles law
                        (fresh account has) all)))))
        ]

    recover_held-Watched :
        (hs : List Profile)
        → select (holds f e.tool e.spent_hash) w.profiles ≡ hs
        → FindsFresh f e w
        → Watched f (recover_held f hs e run w).0
    unfolding recover_held
    recover_held-Watched [] none_left fresh =
        let account = key_of e.tool e.spent_hash in
        let unheld = record w { pending = delete account w.pending } in
        let dropped : Follows f (key_of e.tool e.name) w.spent w unheld =
          Follows-same w unheld h.clean refl refl refl refl in
        let ended = Follows-trans dropped (Follows-end_journal e.tool e.name unheld h.clean refl) in
        rw saved.on_clear (
          ended-Watched _ h there ended (λ has.
            inr
              (inl (ended.carriers account (λ _ _. ⊥) has (no_holder-Gone w.profiles none_left)))))
    recover_held-Watched (p ∷ hs) held fresh =
        elim (Option-cases (recover_rotated f e (or_zero p.file []) w)) [
          | inr (text, found) ↦
              rw (found, recover_held)
                (recover_commit-Watched text (fresh (or_zero p.file []) text found))
          | inl lost ↦
              rw (lost, recover_held)
                (elim (Bool-cases (is_spending e.phase)) [
                  | inl unsent ↦
                      rw (unsent, saved.on_clear)
                        (Watched-Follows w _ h
                          (Follows-end_journal {k = key_of e.tool e.name} e.tool e.name w h.clean
                            refl)
                          (λ account e' has hit g. absurd (
                            let same_entry =
                              own_entry f (key_of e.tool e.name) account e e' w there hit g in
                            let not_launched = g.launched in cc)))
                  | inr sent ↦ rw sent (
                      ended-Watched _ h there
                        (Follows-settle needs_relogin_soon e.tool p.name e.spent_hash e.name run w
                          h.clean saved refl)
                        (λ _. inl (
                          settle-Told f w.spent needs_relogin_soon e.tool p.name e.spent_hash e.name
                            run w h.clean saved)))
                ])
        ]

    pub recover_entry-Watched : FindsFresh f e w → Watched f (recover_entry f e run w).0
    unfolding recover_entry
    recover_entry-Watched fresh =
        recover_held-Watched (select (holds f e.tool e.spent_hash) w.profiles) refl fresh
