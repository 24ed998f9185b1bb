-- ===== src/Usages/Refresher/Settled.antt =====
-- How a run is settled: whatever its outcome, every token that may be spent stays blocked.
use aimebu.Prelude.{
  lookup, contains, Text, text_eq, ◌==◌, nat_eq, ◌≡◌, refl, sym, ap, subst, ◌∙◌, inl, inr, Bool,
  true, false, some, [],
}
use aimebu.Usages.StateStore.{JournalEntry, AccountState, key_of}
use aimebu.Usages.World.{
  Format, Profile, World, Run, Outcome, not_sent, note_failure, change, drop_file, end_journal,
  crashed, is_spending,
}
use aimebu.Usages.Commits.{finish_commit}
use aimebu.Usages.Refresher.{set_journal, settle}
use aimebu.Usages.Refresher.Follows.{
  drop_file-respent, Follows-same, drop_file-spent, Follows-trans, Follows-set_journal,
  Follows-end_journal, drop_file-store, drop_file-profiles, Only, Follows,
}
use aimebu.Usages.Refresher.Commit.{Fresh, Identifies}
use aimebu.Usages.Refresher.Parts.{
  Follows-finish_commit, Follows-note_failure, Saved, Clean, Follows-settle,
}
use aimebu.Usages.Refresher.Spending.{
  finish_commit-Gone, set_journal-Guarded, Guarded, Blocked, Blocked-Follows, own_entry,
  settle-Told,
}

-- No token was spent twice, and each one that was spent is blocked.
pub record Watched (f : Format) (w : World) : Type 1 where
  pub clean : Clean w
  pub blocked : (account : Text) → contains account w.spent ≡ true → Blocked f account w
  pub once : w.respent ≡ false

abbrev pub is_not_sent : Outcome → Bool
is_not_sent (not_sent _) = true
is_not_sent _ = false

module _ {f : Format} where
  pub Blocked-same :
      (account : Text) (w w' : World)
      → w'.store ≡ w.store
      → w'.profiles ≡ w.profiles
      → Blocked f account w
      → Blocked f account w'
  Blocked-same account w w' store profiles (inl told) = inl (rw store told)
  Blocked-same account w w' store profiles (inr (inl gone)) = inr (inl (rw profiles gone))
  Blocked-same account w w' store profiles (inr (inr (e, g))) = inr (
      inr (
        e,
        record {
          there = rw store g.there;
          launched = g.launched;
          about = g.about;
          only = rw profiles g.only;
        },
      ))

  pub Watched-Follows :
      {k : Text} (w w' : World)
      → Watched f w
      → Follows f k w.spent w w'
      → ((account : Text) (e : JournalEntry)
          → contains account w.spent ≡ true
          → (k == key_of e.tool e.name) ≡ true
          → Guarded f account e w
          → Blocked f account w')
      → Watched f w'
  Watched-Follows w w' h r own = record {
    clean = r.clean;
    blocked = λ account has.
        let before : contains account w.spent ≡ true = rw (sym r.same_spent) has in
        Blocked-Follows account w w' r before (λ e hit g. own account e before hit g)
          (h.blocked account before);
    once = r.same_respent ∙ h.once;
  }

  -- What is watched is the store, the profiles and what was spent.
  pub Watched-same :
      (w w' : World)
      → w'.store ≡ w.store
      → w'.profiles ≡ w.profiles
      → w'.spent ≡ w.spent
      → w'.respent ≡ w.respent
      → Watched f w
      → Watched f w'
  Watched-same w w' store profiles spent respent h =
      Watched-Follows w w' h (Follows-same {k = []} w w' h.clean store profiles spent respent)
        (λ account e has hit g. Blocked-same account w w' store profiles (inr (inr (e, g))))

  pub Watched-drop : (path : Text) (w : World) → Watched f w → Watched f (drop_file path w)
  Watched-drop path w h =
      Watched-same w (drop_file path w) (drop_file-store path w) (drop_file-profiles path w)
        (drop_file-spent path w) (drop_file-respent path w) h

  pub Watched-crashed : (w : World) → Watched f w → Watched f (crashed w)
  unfolding crashed
  Watched-crashed w h = record {
    clean = refl;
    blocked = λ account has. elim (h.blocked account has) [
      | inl told ↦ inl told
      | inr (inl gone) ↦ inr (inl gone)
      | inr (inr (e, g)) ↦ inr (
          inr
            (e, record { there = g.there; launched = g.launched; about = g.about; only = g.only }))
    ];
    once = h.once;
  }

-- The profile of a run alone carries its token, and its journal entry is about that token.
pub record Running (f : Format) (p : Profile) (hash : Text) (w : World) : Type 1 where
  pub entry : JournalEntry
  pub there : lookup (key_of p.tool p.name) w.store.disk.journal ≡ some entry
  pub about : key_of entry.tool entry.spent_hash ≡ key_of p.tool hash
  pub alone :
      Only f (key_of p.tool hash) (λ tool name. (tool ≡ p.tool) × (name ≡ p.name)) w.profiles

pub Running-same :
    (f : Format) (p : Profile) (hash : Text) (w w' : World)
    → w'.store ≡ w.store
    → w'.profiles ≡ w.profiles
    → Running f p hash w
    → Running f p hash w'
Running-same f p hash w w' store profiles r = record {
  entry = r.entry;
  there = rw store r.there;
  about = r.about;
  alone = rw profiles r.alone;
}

module _ (f : Format) (p : Profile) (hash : Text) (run : Run) (w : World) (saved : Saved run) where
  -- The only account that the entry of the run guards is its own.
  pub guards_own :
      (account : Text) (e : JournalEntry)
      → Running f p hash w
      → (key_of p.tool p.name == key_of e.tool e.name) ≡ true
      → Guarded f account e w
      → key_of p.tool hash ≡ account
  guards_own account e r hit g =
      let same_entry = own_entry f (key_of p.tool p.name) account r.entry e w r.there hit g in
      sym r.about ∙ ap (λ (j : JournalEntry). key_of j.tool j.spent_hash) same_entry ∙ g.about

  pub settle-Watched :
      (verdict : AccountState)
      → Watched f w
      → Running f p hash w
      → Watched f (settle f verdict p.tool p.name hash p.name run w)
  settle-Watched verdict h r =
      let w' = settle f verdict p.tool p.name hash p.name run w in
      Watched-Follows w w' h
        (Follows-settle verdict p.tool p.name hash p.name run w h.clean saved refl)
        (λ account e has hit g.
          subst (λ a. Blocked f a w') (guards_own account e r hit g)
            (inl (settle-Told f w.spent verdict p.tool p.name hash p.name run w h.clean saved)))

  pub cleared-Watched :
      (noop : Bool)
      → Watched f w
      → Running f p hash w
      → contains (key_of p.tool hash) w.spent ≡ false
      → Watched f
          (note_failure (key_of p.tool hash) noop run.now (end_journal true p.tool p.name w))
  cleared-Watched noop h r unspent =
      let ended : Follows f (key_of p.tool p.name) w.spent w (end_journal true p.tool p.name w) =
        Follows-end_journal p.tool p.name w h.clean refl in
      let noted =
        Follows-note_failure (key_of p.tool hash) noop run.now (end_journal true p.tool p.name w)
          ended.clean in
      Watched-Follows w _ h (Follows-trans ended noted)
        (λ account e has hit g. absurd (let own = guards_own account e r hit g in cc))

  pub journaled-Watched :
      (e : JournalEntry)
      → e.tool ≡ p.tool
      → e.name ≡ p.name
      → e.spent_hash ≡ hash
      → is_spending e.phase ≡ false
      → Watched f w
      → Running f p hash w
      → Watched f (change true (set_journal e) w) × Running f p hash (change true (set_journal e) w)
  journaled-Watched e tool name spent_hash launched h r =
      let w' = change true (set_journal e) w in
      let key : key_of e.tool e.name ≡ key_of p.tool p.name = rw (tool, name) refl in
      let about : key_of e.tool e.spent_hash ≡ key_of p.tool hash = rw (tool, spent_hash) refl in
      let alone : Only f (key_of e.tool e.spent_hash)
          (λ tool name. (tool ≡ e.tool) × (name ≡ e.name)) w.profiles =
        rw (about, tool, name) r.alone in
      let set : Follows f (key_of p.tool p.name) w.spent w w' =
        Follows-set_journal e w h.clean key in
      let guard = set_journal-Guarded f e w h.clean launched alone in
      (
        Watched-Follows w w' h set (λ account e' has hit g.
            subst (λ a. Blocked f a w') (about ∙ guards_own account e' r hit g)
              (inr (inr (e, guard)))),
        record {
          entry = e;
          there = ap (λ j. lookup j w'.store.disk.journal) (sym key) ∙ guard.there;
          about = about;
          alone = r.alone;
        },
      )

  pub finished-Watched :
      (rescue text : Text)
      → Identifies f
      → Fresh f p.tool text w.spent
      → Watched f w
      → Running f p hash w
      → Watched f (finish_commit f p.tool p.name hash rescue text run w)
  finished-Watched rescue text law fresh h r =
      let w' = finish_commit f p.tool p.name hash rescue text run w in
      let all : Follows f (key_of p.tool p.name) w.spent w w' =
        Follows-finish_commit p.tool p.name hash rescue text run w h.clean saved fresh refl in
      Watched-Follows w w' h all (λ account e has hit g.
        let own = guards_own account e r hit g in
        elim (finish_commit-Gone f w.spent p.tool p.name hash rescue text run w law h.clean saved
          (rw own has) fresh) [
            | inl store ↦ inr (
                inr (
                  e,
                  record {
                    there = rw store g.there;
                    launched = g.launched;
                    about = g.about;
                    only =
                        all.carriers account (λ tool name. (tool ≡ e.tool) × (name ≡ e.name)) has
                          g.only;
                  },
                ))
            | inr gone ↦ subst (λ a. Blocked f a w') own (inr (inl gone))
          ])
